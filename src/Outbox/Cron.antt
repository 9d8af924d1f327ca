-- ===== src/Outbox/Cron.antt =====
-- src/shared/modules/outbox/providers: outbox-cron.processor.ts and the query of
-- outbox.repository.ts.
use dispatch_api.Prelude.{
  ℕ, Bool, true, false, not, ◌||◌, ◌==◌, List, [], ◌∷◌, ◌++◌, keep, take, length, leb,
  if◌then◌else◌,
}
use dispatch_api.Entities.{Outbox, QueueJob, Db}
use dispatch_api.World.{
  World, QueueName, orders, payments, effects, users, queue_unavailable, M, Void, pure, gets, query,
  raise_if, modify, write, catch, ◌>>=◌, ◌>>◌,
}
use dispatch_api.Guard.{transaction}
use dispatch_api.Outbox.Add.{schedule}
use dispatch_api.Outbox.Dispatcher.{partition}

abbrev pub batch_limit : ℕ
batch_limit = 100

-- `orderBy(createdAt, 'ASC')`
unfoldable pub insert_by_time : Outbox → List Outbox → List Outbox
insert_by_time m [] = m ∷ []
insert_by_time m (n ∷ ns) =
    let rest = insert_by_time m ns in if leb m.created_at n.created_at then m ∷ n ∷ ns else n ∷ rest

unfoldable pub sort_by_time : List Outbox → List Outbox
unfolding insert_by_time
sort_by_time [] = []
sort_by_time (m ∷ ms) = insert_by_time m (sort_by_time ms)

-- findAndLockBatch
unfoldable pub find_and_lock_batch : ℕ → M (List Outbox)
unfolding sort_by_time
find_and_lock_batch limit = query (λ db. take limit (sort_by_time db.outbox))

abbrev pub has_id : List Outbox → ℕ → Bool
has_id [] id = false
has_id (m ∷ ms) id = m.id == id || has_id ms id

-- deleteBulk of the ids of the messages
abbrev pub remove_messages : List Outbox → Db → Db
remove_messages ms db = record db { outbox = keep (λ m. not (has_id ms m.id)) db.outbox }

abbrev pub enqueue : QueueName → List QueueJob → World → World
enqueue orders jobs w = record w { order_queue = w.order_queue ++ jobs }
enqueue payments jobs w = record w { payment_queue = w.payment_queue ++ jobs }
enqueue effects jobs w = record w { effect_queue = w.effect_queue ++ jobs }
enqueue users jobs w = record w { user_queue = w.user_queue ++ jobs }

-- `if (msgs.length > 0) await queue.addBulk(msgs)`
unfoldable pub add_bulk : QueueName → List QueueJob → M Void
add_bulk name [] = pure tt
add_bulk name (j ∷ js) = do
  accepted ← gets (λ w. w.env.accepts name (j ∷ js))
  raise_if (not accepted) queue_unavailable
  modify (enqueue name (j ∷ js))

-- dispatch
unfoldable pub dispatch : List Outbox → M Void
unfolding partition add_bulk
dispatch messages = do
  let plan = partition messages
  add_bulk orders plan.order_queue_msg
  add_bulk payments plan.payment_queue_msg
  add_bulk effects plan.effect_queue_msg
  add_bulk users plan.user_queue_msg

abbrev pub set_processing : Bool → M Void
set_processing b = modify (λ w. record w { is_processing = b })

-- The batch that was found is dispatched and removed; a full one schedules the next cycle at once.
unfoldable pub process_batch : List Outbox → M Void
unfolding dispatch schedule
process_batch [] = pure tt
process_batch (m ∷ ms) = do
  dispatch (m ∷ ms)
  write (remove_messages (m ∷ ms))
  if length (m ∷ ms) == batch_limit then schedule else pure tt

-- _process; the flag is released in `finally`, and an error is only logged.
unfoldable pub process_work : M Void
unfolding find_and_lock_batch process_batch
process_work = do
  stop ← gets (λ w. w.is_shutting_down || w.is_processing)
  if stop then pure tt else (do
    set_processing true
    catch (do messages ← find_and_lock_batch batch_limit; process_batch messages) (λ _. pure tt)
    set_processing false)

-- process
unfoldable pub process : M Void
process = transaction process_work
