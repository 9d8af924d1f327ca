-- ===== src/Web/BasicAuth.antt =====
-- The password of the queue board: src/middleware/basic-auth.middleware.ts.
use text.Mathlib.Text.{◌==◌ as text_eq, starts_with}
use dispatch_api.Prelude.{
  ℕ, List, Bool, false, not, ◌&&◌, Option, none, some, String, truthy, colon, first_part,
  after_first, if◌then◌else◌,
}
use dispatch_api.Web.Ascii.{ascii_text}

-- ConfigService.get of ADMIN_USERNAME and ADMIN_PASSWORD
pub record AdminConfig : Type 0 where
  pub admin_username : Option String
  pub admin_password : Option String

-- `next()`, `sendUnauthorized`, and the error that is thrown
pub data Admission : Type 0 where
  admitted refused not_configured : Admission

abbrev pub space : ℕ
space = 32

-- `text.split(separator)[1]`
abbrev pub second_part : ℕ → String → Option String
second_part separator s = elim (after_first separator s) [
  | none ↦ none
  | some t ↦ some (first_part separator t)
]

-- `value === expected`, where the value may be undefined
abbrev pub is_text : Option String → String → Bool
is_text none expected = false
is_text (some s) expected = text_eq s expected

-- The comparison with what is configured, which must be there.
abbrev pub check_credentials : AdminConfig → String → Admission
check_credentials config credentials = elim (truthy config.admin_username) [
  | none ↦ not_configured
  | some username ↦ elim (truthy config.admin_password) [
    | none ↦ not_configured
    | some password ↦
        if text_eq (first_part colon credentials) username
          && is_text (second_part colon credentials) password
        then admitted
        else refused
  ]
]

-- use, given the Authorization header; `decode` gives the bytes that a base64 text holds, of which
-- `toString('ascii')` makes the credentials.
unfoldable pub admit : (String → List ℕ) → AdminConfig → Option String → Admission
admit decode config none = refused
admit decode config (some header) =
    if not (starts_with header "Basic ") then refused else elim (second_part space header) [
      | none ↦ refused
      | some encoded ↦ check_credentials config (ascii_text (decode encoded))
    ]
