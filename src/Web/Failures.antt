-- ===== src/Web/Failures.antt =====
-- The answer to a request that has failed: src/shared/filters/exception.filter.ts.
use Prim.Native.String.{◌++◌}
use text.Mathlib.Text.{◌==◌ as text_eq}
use dispatch_api.Prelude.{
  ℕ, Bool, false, Option, none, some, List, [], ◌∷◌, String, truthy, if◌then◌else◌,
}

-- The `message` of an exception's response: one text, or those of class-validator.
pub data Message : Type 0 where
  one_text : String → Message
  texts : List String → Message

-- An HttpException: its status, name and own message, and what its response holds, a key of a template
-- with its arguments or a message.
pub record HttpFailure (Args : Type 0) : Type 0 where
  pub status : ℕ
  pub name : String
  pub own_message : String
  pub key : Option String
  pub args : Option Args
  pub message : Option Message

-- What can be thrown. Only an HttpException has the method `getResponse`.
pub data Thrown (Args : Type 0) : Type 0 where
  http_failure : HttpFailure Args → Thrown Args
  other_failure : Thrown Args

-- src/shared/dto/error-response.dto.ts
pub record ErrorResponse : Type 0 where
  pub success : Bool
  pub message : String
  pub error : String
  pub status_code : ℕ
  pub timestamp : ℕ
  pub path : String

-- `message.join(', ')`
abbrev pub join : List String → String
join [] = ""
join (s ∷ []) = s
join (s ∷ t ∷ ts) = s ++ ", " ++ join (t ∷ ts)

-- `Array.isArray(message) ? message.join(', ') : message`
abbrev pub flatten : Message → String
flatten (one_text s) = s
flatten (texts ss) = join ss

-- `exceptionResponse.message || exception.message`
abbrev pub message_or : Option Message → String → Message
message_or none own = one_text own
message_or (some (one_text s)) own = if text_eq s "" then one_text own else one_text s
message_or (some (texts ss)) own = texts ss

module _ {Args : Type 0} (translate : String → Option Args → String) where
  abbrev pub message_of : HttpFailure Args → Message
  message_of e = elim (truthy e.key) [
    | none ↦ message_or e.message e.own_message
    | some k ↦ one_text (translate k e.args)
  ]

  -- catch, at a time and for a path, with I18nContext.translate. `exception.getResponse()` is called
  -- before the test `exception instanceof HttpException`, so that of anything else throws a TypeError,
  -- which `none` stands for, and the code for such exceptions is not reached.
  unfoldable pub catch_exception : ℕ → String → Thrown Args → Option ErrorResponse
  catch_exception now path other_failure = none
  catch_exception now path (http_failure e) = some (record {
    success = false;
    message = flatten (message_of e);
    error = e.name;
    status_code = e.status;
    timestamp = now;
    path = path;
  })
