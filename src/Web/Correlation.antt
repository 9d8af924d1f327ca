-- ===== src/Web/Correlation.antt =====
-- The id that a request is followed by: genReqId of src/config/logger.config.ts, src/middleware/correlation-id.middleware.ts and
-- src/shared/utils/request-context.utils.ts. Ids are numbers; an empty header is as none.
use dispatch_api.Prelude.{ℕ, ◌+◌, Option, none, some, or_else, [], ◌∷◌, ◌++◌}
use dispatch_api.Entities.{JobBody}
use dispatch_api.World.{World, M, Result}
use dispatch_api.Jobs.{with_correlation}
use dispatch_api.Outbox
use dispatch_api.Outbox.Waiting.{message_of}

pub record Headers : Type 0 where
  pub x_correlation_id : Option ℕ
  pub x_request_id : Option ℕ

-- `randomUUID()`, drawn only where it is needed.
abbrev pub or_random : Option ℕ → World → ℕ × World
or_random (some id) w = (id, w)
or_random none w = (w.next_id, record w { next_id = w.next_id + 1 })

abbrev pub first_some : Option ℕ → Option ℕ → Option ℕ
first_some (some a) b = some a
first_some none b = b

-- genReqId
unfoldable pub gen_req_id : Headers → World → ℕ × World
gen_req_id h w = or_random (first_some h.x_correlation_id h.x_request_id) w

-- What the client gets: the header x-correlation-id, and what the rest of the request does.
abbrev pub Answered : Type 0 → Type 0
Answered A = ℕ × (Result A × World)

-- CorrelationIdMiddleware.use: `req.id` is what pino-http has set.
unfoldable pub use_correlation_id : {A : Type 0} → Option ℕ → Headers → M A → World → Answered A
use_correlation_id req_id h next w =
    let (id, w') = or_random (first_some req_id (first_some h.x_correlation_id h.x_request_id)) w in
    (id, with_correlation id next w')

-- A request, as it goes through the logger and the middleware to its route.
unfoldable pub followed : {A : Type 0} → Headers → M A → World → Answered A
unfolding gen_req_id use_correlation_id
followed h next w = let (id, w') = gen_req_id h w in use_correlation_id (some id) h next w'

-- The state that a request's own work begins in.
abbrev pub entered : Option ℕ → World → World
entered o w = let (id, w') = or_random o w in record w' { correlation = some id }

abbrev with_row : JobBody → World → World
with_row body v = record v {
  committed = record v.committed { outbox = v.committed.outbox ++ (message_of body v ∷ []) };
  next_id = v.next_id + 3;
  ticks = v.ticks + 1;
}

abbrev pub id_in : Headers → Option ℕ
id_in h = first_some h.x_correlation_id h.x_request_id

abbrev pub id_of : Headers → World → ℕ
id_of h w = or_else (id_in h) w.next_id
