-- ===== src/Workers/Carried.antt =====
-- From the outbox to a worker: a row that waits alone, and the cycle that takes it
-- (src/shared/modules/outbox/providers/outbox-cron.processor.ts, src/modules/*/providers/processors).
use dispatch_api.Prelude.{
  some, or_else, ◌≡◌, ap, ◌∙◌, refl, Bool, true, false, ==_refl, List, [], ◌∷◌, ◌++◌, arith,
}
use dispatch_api.Entities.{Db, Outbox, QueueJob, JobBody, body_type}
use dispatch_api.World.{World, QueueName, orders, payments, effects, users, ok, CacheKey}
use dispatch_api.Jobs.{process as job_process, is_taken, job_lock}
use dispatch_api.Workers.{worker}
use dispatch_api.Guard.{transaction, is_held}
use dispatch_api.Jobs.Marker.{marker, begun, markers_live, status_of, job_is_run}
use dispatch_api.Dtos.{job_value}
use dispatch_api.Outbox.Waiting.{message_of}
use dispatch_api.Outbox.Dispatcher.{partition, to_queue_job}
use dispatch_api.Outbox.Cron.{
  sort_by_time, find_and_lock_batch, add_bulk, dispatch, process_batch, process_work, process,
  enqueue,
}
use dispatch_api.Workers.Routing.{
  queue_of, task, key_in, handlers_in, worker_lem, handler_of, job_of, known, does,
}

-- The state with the row of a job taken from the outbox and the job at the end of its queue.
abbrev pub handed_over : Outbox → World → World
handed_over m w =
    enqueue (queue_of m.payload.body) (to_queue_job m ∷ [])
      (record w { committed = record w.committed { outbox = [] }; is_processing = false })

pub process_alone :
    (m : Outbox) (w : World)
    → w.committed.outbox ≡ m ∷ []
    → m.type ≡ body_type m.payload.body
    → w.is_shutting_down ≡ false
    → w.is_processing ≡ false
    → w.env.accepts (queue_of m.payload.body) (to_queue_job m ∷ []) ≡ true
    → process w ≡ (ok tt, handed_over m w)
unfolding process process_work transaction find_and_lock_batch process_batch dispatch add_bulk
    partition sort_by_time
process_alone m w alone typed running idle accepting = ground (arith, ==_refl m.id)

-- What holds of a state in which the next cycle hands a row over and a worker runs its job: nothing else
-- waits, the cycle may run, the queue takes the job, and the job has neither marker nor lock.
pub record Clear (body : JobBody) (made w : World) : Type 0 where
  pub alone : w.committed.outbox ≡ message_of body made ∷ []
  pub running : w.is_shutting_down ≡ false
  pub idle : w.is_processing ≡ false
  pub accepting : w.env.accepts (queue_of body) (job_of body made ∷ []) ≡ true
  pub unmarked : is_taken (marker (key_in (queue_of body) (job_of body made)) w) ≡ false
  pub unlocked : is_held (job_lock (job_of body made).job_id) w.held ≡ false

abbrev pub queue_at : QueueName → World → List QueueJob
queue_at orders w = w.order_queue
queue_at payments w = w.payment_queue
queue_at effects w = w.effect_queue
queue_at users w = w.user_queue

pub queue_at-enqueue :
    (q : QueueName) (jobs : List QueueJob) (db : Db) (b : Bool) (w : World)
    → queue_at q (enqueue q jobs (record w { committed = db; is_processing = b }))
      ≡ queue_at q w ++ jobs
queue_at-enqueue orders jobs db b w = refl
queue_at-enqueue payments jobs db b w = refl
queue_at-enqueue effects jobs db b w = refl
queue_at-enqueue users jobs db b w = refl

-- Nothing else than the queue is changed.
module _ {B : Type 0} (part : World → B) where
  kept-enqueue :
      (q : QueueName) (jobs : List QueueJob) (w : World)
      → ((o p e u : List QueueJob)
          → part (record w { order_queue = o; payment_queue = p; effect_queue = e; user_queue = u })
            ≡ part w)
      → part (enqueue q jobs w) ≡ part w
  kept-enqueue orders jobs w k =
      k (w.order_queue ++ jobs) w.payment_queue w.effect_queue w.user_queue
  kept-enqueue payments jobs w k =
      k w.order_queue (w.payment_queue ++ jobs) w.effect_queue w.user_queue
  kept-enqueue effects jobs w k =
      k w.order_queue w.payment_queue (w.effect_queue ++ jobs) w.user_queue
  kept-enqueue users jobs w k =
      k w.order_queue w.payment_queue w.effect_queue (w.user_queue ++ jobs)

module _ (body : JobBody) (made : World) where
  abbrev pub job_key : CacheKey
  job_key = key_in (queue_of body) (job_of body made)

  -- The state in which the task of the job begins.
  abbrev pub at_task : World → World
  at_task w = begun (job_of body made) job_key (handed_over (message_of body made) w)

  worker_runs :
      (v : World)
      → is_taken (marker job_key v) ≡ false
      → is_held (job_lock (job_of body made).job_id) v.held ≡ false
      → let begin = begun (job_of body made) job_key v in
        markers_live (task body begin).1 ≡ true
        → let (result, left) = task body begin in
          let (r, w') = worker (queue_of body) (job_of body made) v in
          (r ≡ result)
          × (w'.committed ≡ left.committed)
          × (marker job_key w' ≡ some (job_value (status_of result)))
  worker_runs v unmarked unlocked live =
      let job = job_of body made in
      let same = ap (λ f. f (begun job job_key v)) (does body made) in
      let (result, marked, rows, _, _) =
        job_is_run (handlers_in (queue_of body)) job_process job job_key (handler_of body) v
          (known body made) unmarked unlocked (ap (λ x. markers_live x.1) same ∙ live) in
      rw (worker_lem (queue_of body) job) (
        result ∙ ap (λ x. x.0) same,
        rows ∙ ap (λ x. x.1.committed) same,
        marked ∙ ap (λ x. some (job_value (status_of x.0))) same,
      )

  -- A row that waits alone in the outbox, while no cycle runs, the process is not shutting down and
  -- the queue of its payload takes the job, is handed over by one cycle, to the end of that queue. If
  -- the job has neither marker nor lock, and markers live for some time where its task ends, the
  -- worker of that queue then runs what the payload asks for, under the correlation id of the context
  -- that the row was added in, gives its result back to the queue and leaves what it has left in the
  -- database; the marker says COMPLETED or FAILED.
  pub row_is_carried_out :
      (w : World)
      → Clear body made w
      → markers_live (task body (at_task w)).1 ≡ true
      → let (r, w') = process w in
        let (result, left) = task body (at_task w) in
        let (r', w'') = worker (queue_of body) (job_of body made) w' in
        (r ≡ ok tt)
        × (queue_at (queue_of body) w' ≡ queue_at (queue_of body) w ++ (job_of body made ∷ []))
        × (w'.committed.outbox ≡ [])
        × ((at_task w).correlation ≡ some (or_else made.correlation made.next_id))
        × (r' ≡ result)
        × (w''.committed ≡ left.committed)
        × (marker job_key w'' ≡ some (job_value (status_of result)))
  row_is_carried_out w c live =
      let handed =
        process_alone (message_of body made) w c.alone refl c.running c.idle c.accepting in
      let v = handed_over (message_of body made) w in
      let jobs = job_of body made ∷ [] in
      let emptied : World = record w {
        committed = record w.committed { outbox = [] };
        is_processing = false;
      } in
      let unmarked = kept-enqueue (marker job_key) (queue_of body) jobs emptied (λ o p e u. refl) in
      let unlocked = kept-enqueue (λ x. x.held) (queue_of body) jobs emptied (λ o p e u. refl) in
      let rows =
        kept-enqueue (λ x. x.committed.outbox) (queue_of body) jobs emptied (λ o p e u. refl) in
      let ran =
        worker_runs v (ap is_taken unmarked ∙ c.unmarked)
          (ap (is_held (job_lock (job_of body made).job_id)) unlocked ∙ c.unlocked) live in
      rw handed (
        refl,
        queue_at-enqueue (queue_of body) jobs emptied.committed false w,
        rows,
        refl,
        ran.0,
        ran.1,
        ran.2,
      )
