-- ===== src/Outbox/Add.antt =====
-- src/shared/modules/outbox/outbox.service.ts: jobs to be done are rows of a table, written in the transaction of
-- the change that they follow from.
use dispatch_api.Prelude.{ℕ, ◌+◌, ◌++◌, [], ◌∷◌, or_else, arith}
use dispatch_api.Entities.{JobBody, JobPayload, Outbox, body_type}
use dispatch_api.World.{M, Void, fresh, gets, pure, write, modify, ◌>>=◌, ◌>>◌}
use dispatch_api.Guard.Isolated.{Isolated, isolated_rules}

-- `RequestContext.getCorrelationId() ?? randomUUID()`
unfoldable pub correlation_id : M ℕ
correlation_id = do generated ← fresh; gets (λ w. or_else w.correlation generated)

-- The constructor of a payload class.
unfoldable pub new_payload : JobBody → M JobPayload
unfolding correlation_id
new_payload body = do
  correlation ← correlation_id
  now ← gets (λ w. w.now)
  pure (record { timestamp = now; correlation_id = correlation; body = body })

-- `setImmediate(() => this.outboxCronProcessor.process())`
unfoldable pub schedule : M Void
schedule = modify (λ w. record w { ticks = w.ticks + 1 })

-- OutboxService.add
unfoldable pub add : JobBody → M Void
unfolding new_payload schedule
add body = do
  payload ← new_payload body
  correlation ← correlation_id
  id ← fresh
  now ← gets (λ w. w.now)
  let entry : Outbox = record {
    id = id;
    created_at = now;
    correlation_id = correlation;
    type = body_type body;
    payload = payload;
  }
  write (λ db. record db { outbox = db.outbox ++ (entry ∷ []) })
  schedule

pub schedule-Isolated : Isolated schedule
unfolding schedule
schedule-Isolated = record { at = λ w h. ground arith }

pub add-Isolated : (body : JobBody) → Isolated (add body)
unfolding add
add-Isolated body = search (isolated_rules, schedule-Isolated) depth 12
