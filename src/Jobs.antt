-- ===== src/Jobs.antt =====
-- src/shared/providers/processors/base.processor.ts: one attempt at a job of a queue.
pub mod Marker
use dispatch_api.Prelude.{ℕ, Bool, true, false, Option, none, some, or_else, leb, if◌then◌else◌}
use dispatch_api.Enums.{in_progress, completed, failed}
use dispatch_api.Dtos.{CacheValue, job_value}
use dispatch_api.Entities.{QueueJob}
use dispatch_api.World.{LockKey, job_execute, CacheKey, M, Void, pure, raise, catch, ◌>>=◌, ◌>>◌}
use dispatch_api.Guard.{lock}
use dispatch_api.Cache.{get, set}

-- A strategy (src/shared/providers/strategies/base-job.strategy.ts).
pub record JobHandler : Type 0 where
  pub execute : QueueJob → M Void
  pub execute_after_fail : QueueJob → M Void

-- The queue event for which the job is run.
pub data JobEvent : Type 0 where
  process failure : JobEvent

-- `idempotencyValue && idempotencyValue !== JobStatus.FAILED`
abbrev pub is_taken : Option CacheValue → Bool
is_taken none = false
is_taken (some (job_value failed)) = false
is_taken (some _) = true

abbrev pub run_handler : JobEvent → JobHandler → QueueJob → M Void
run_handler process h job = h.execute job
run_handler failure h job = h.execute_after_fail job

-- RequestContext.run: the correlation id of the job, for the duration of the work.
abbrev pub with_correlation : {A : Type 0} → ℕ → M A → M A
with_correlation c m w =
    let (r, w') = m (record w { correlation = some c }) in
    (r, record w' { correlation = w.correlation })

abbrev pub job_lock : ℕ → LockKey
job_lock id = record { space = job_execute; id = id }

-- The `try` block: an unknown job is only warned about, and the marker stays IN_PROGRESS.
abbrev pub attempt : Option JobHandler → JobEvent → QueueJob → CacheKey → M Void
attempt none event job key = pure tt
attempt (some h) event job key = do run_handler event h job; set key (job_value completed) none

-- The test of the marker; a job that is taken is passed over.
abbrev pub unless_taken : Option CacheValue → M Void → M Void
unless_taken v m = if is_taken v then pure tt else m

-- _executeJob
unfoldable pub execute_job_work :
    (QueueJob → Option JobHandler) → JobEvent → QueueJob → CacheKey → M Void
unfolding get set
execute_job_work create_handler event job key = with_correlation job.payload.correlation_id (do
  taken ← get key
  unless_taken taken (do
    set key (job_value in_progress) none
    catch (attempt (create_handler job) event job key)
        (λ e. do set key (job_value failed) none; raise e)))

-- executeJob
unfoldable pub execute_job :
    (QueueJob → Option JobHandler) → JobEvent → QueueJob → CacheKey → M Void
execute_job create_handler event job key =
    lock (job_lock job.job_id) (execute_job_work create_handler event job key)

-- processFailed of the processors: the failed event is handled once no attempt is left;
-- `job.opts.attempts || 1`.
unfoldable pub process_failed :
    ℕ → Option ℕ → (QueueJob → Option JobHandler) → QueueJob → CacheKey → M Void
process_failed attempts_made attempts create_handler job key =
    if leb (or_else attempts 1) attempts_made
    then execute_job create_handler failure job key
    else pure tt
