-- ===== src/Outbox/Waiting.antt =====
-- The jobs that wait in the outbox (src/shared/modules/outbox/entities/outbox.entity.ts).
use dispatch_api.Prelude.{◌≡◌, ◌+◌, or_else, List, [], ◌∷◌, ◌++◌, map, arith}
use mathlib.Core.List.{map-append}
use dispatch_api.Entities.{JobBody, JobPayload, Outbox, Db, body_type}
use dispatch_api.World.{World, ok, write_world}
use dispatch_api.Outbox.Add.{add}

abbrev pub jobs_of : List Outbox → List JobBody
jobs_of = map (λ m. m.payload.body)

pub jobs-push :
    (m : Outbox) (ms : List Outbox) → jobs_of (ms ++ (m ∷ [])) ≡ jobs_of ms ++ (m.payload.body ∷ [])
jobs-push m ms = map-append (λ (m : Outbox). m.payload.body) ms (m ∷ [])

-- The row that is added for a job, and what adding it does to the state.
abbrev pub message_of : JobBody → World → Outbox
message_of body w =
    let payload : JobPayload = record {
      timestamp = w.now;
      correlation_id = or_else w.correlation w.next_id;
      body = body;
    } in
    record {
      id = w.next_id + 2;
      created_at = w.now;
      correlation_id = or_else w.correlation (w.next_id + 1);
      type = body_type body;
      payload = payload;
    }

abbrev pub push_message : Outbox → Db → Db
push_message m db = record db { outbox = db.outbox ++ (m ∷ []) }

pub add_lem :
    (body : JobBody) (w : World)
    → add body w ≡ (
      ok tt,
      record (write_world (push_message (message_of body w)) w) {
        next_id = w.next_id + 3;
        ticks = w.ticks + 1;
      },
    )
unfolding add
add_lem body w = ground arith
