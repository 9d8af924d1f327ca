-- ===== src/Workers/Exact.antt =====
-- What one attempt of a worker leaves: executeJob of src/shared/providers/processors/base.processor.ts under the processors
-- of src/modules/*/providers/processors.
use dispatch_api.Prelude.{
  ◌≡◌, ap, ◌∙◌, false, ◌&&◌, Option, some, find-upsert_other, List, ◌∷◌, arith,
}
use dispatch_api.Entities.{JobBody, QueueJob}
use dispatch_api.Enums.{JobStatus}
use dispatch_api.World.{World, CacheKey, cache_eq, LockKey, lock_eq_refl}
use dispatch_api.Guard.{is_held, release, lock}
use dispatch_api.Cache.{get, set, has_key, is_fresh, value_of}
use dispatch_api.Cache.Keyed.{cache_eq_trans, and_false}
use dispatch_api.Jobs.{
  JobHandler, JobEvent, process as job_process, execute_job, execute_job_work, job_lock, is_taken,
  run_handler,
}
use dispatch_api.Jobs.Marker.{marker, begun, marked, entry, status_of}
use dispatch_api.Workers.{worker}
use dispatch_api.Workers.Routing.{
  queue_of, task, key_in, handlers_in, worker_lem, handler_of, job_of, known, does,
}

-- The marker of the job is set, its lock given back and the context as before.
abbrev pub finished : QueueJob → CacheKey → World → JobStatus → World → World
finished job key before s left = record (marked key s left) {
  held = release (job_lock job.job_id) left.held;
  correlation = before.correlation;
}

execute_job_lem :
    (handlers : QueueJob → Option JobHandler) (event : JobEvent) (job : QueueJob) (key : CacheKey)
    (h : JobHandler) (w : World)
    → handlers job ≡ some h
    → is_taken (marker key w) ≡ false
    → is_held (job_lock job.job_id) w.held ≡ false
    → let (result, left) = run_handler event h job (begun job key w) in
      execute_job handlers event job key w ≡ (result, finished job key w (status_of result) left)
unfolding execute_job execute_job_work lock get set
execute_job_lem handlers event job key h w known untaken free = ground arith

-- One attempt at the job of a row runs what the payload asks for.
pub worker_finishes :
    (body : JobBody) (made w : World)
    → let job = job_of body made in
      let key = key_in (queue_of body) job in
      is_taken (marker key w) ≡ false
      → is_held (job_lock job.job_id) w.held ≡ false
      → let (result, left) = task body (begun job key w) in
        worker (queue_of body) job w ≡ (result, finished job key w (status_of result) left)
worker_finishes body made w untaken free =
    let job = job_of body made in
    let key = key_in (queue_of body) job in
    let same = ap (λ f. f (begun job key w)) (does body made) in
    rw (worker_lem (queue_of body) job) (
      execute_job_lem (handlers_in (queue_of body)) job_process job key (handler_of body) w
        (known body made) untaken free
      ∙ ap (λ x. (x.0, finished job key w (status_of x.0) x.1)) same)

pub release_own : (k : LockKey) (ks : List LockKey) → release k (k ∷ ks) ≡ ks
release_own k ks = ground (arith, lock_eq_refl k)

-- The marker of another job is left as it is.
pub marker-marked_other :
    (key other : CacheKey) (s : JobStatus) (w : World)
    → cache_eq other key ≡ false
    → marker other (marked key s w) ≡ marker other w
marker-marked_other key other s w apart = ap value_of (
    find-upsert_other (has_key key) (λ e. has_key other e && is_fresh w.now e) (entry key s w)
      w.cache (λ x at_key. and_false _ _ (cache_eq_trans key other x.key at_key ∙ apart))
      (and_false _ _ apart))
