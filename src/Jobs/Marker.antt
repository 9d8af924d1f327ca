-- ===== src/Jobs/Marker.antt =====
-- The marker of a job: how src/shared/providers/processors/base.processor.ts keeps a job from being run twice.
use dispatch_api.Prelude.{
  ℕ, ◌+◌, ◌≡◌, ap, Bool, true, false, ltb, ◌&&◌, Option, some, find, upsert, ◌∷◌, arith, or_else,
}
use dispatch_api.Enums.{JobStatus, in_progress, completed, failed}
use dispatch_api.Dtos.{CacheValue, job_value}
use dispatch_api.Entities.{QueueJob}
use dispatch_api.World.{World, CacheEntry, CacheKey, cache_eq_refl, Result, ok, err, Void}
use dispatch_api.Guard.{is_held, release, lock}
use dispatch_api.Cache.{get, set, is_fresh, has_key, value_of}
use dispatch_api.Cache.Ttl
use dispatch_api.Cache.Replay.{find-upsert_fresh}
use dispatch_api.Jobs.{
  JobHandler, JobEvent, execute_job, execute_job_work, job_lock, is_taken, run_handler,
}

-- The marker that a job has in a state.
abbrev pub marker : CacheKey → World → Option CacheValue
marker key w = value_of (find (λ e. has_key key e && is_fresh w.now e) w.cache)

-- A job that is marked as under way or done, whose lock is free, is passed over: it reports
-- success and nothing is changed.
pub taken_is_skipped :
    (handlers : QueueJob → Option JobHandler) (event : JobEvent) (job : QueueJob) (key : CacheKey)
    (w : World)
    → is_taken (marker key w) ≡ true
    → is_held (job_lock job.job_id) w.held ≡ false
    → execute_job handlers event job key w ≡ (ok tt, w)
unfolding execute_job execute_job_work lock get set
taken_is_skipped handlers event job key w taken free = ground arith

-- The entry that a marker of the job is.
abbrev pub entry : CacheKey → JobStatus → World → CacheEntry
entry key s w = record {
  key = key;
  value = job_value s;
  expires_at = w.now + Ttl.micros (or_else w.env.cache_ttl Ttl.default_ttl);
}

abbrev pub marked : CacheKey → JobStatus → World → World
marked key s w = record w { cache = upsert (has_key key) (entry key s w) w.cache }

-- The state that the handler of a job begins in.
abbrev pub begun : QueueJob → CacheKey → World → World
begun job key w = marked key in_progress (record w {
  held = job_lock job.job_id ∷ w.held;
  correlation = some job.payload.correlation_id;
})

-- Markers live for some time, as the configuration says.
abbrev pub markers_live : World → Bool
markers_live w = ltb 0 (or_else w.env.cache_ttl Ttl.default_ttl)

later : (now ttl : ℕ) → ltb 0 ttl ≡ true → ltb now (now + Ttl.micros ttl) ≡ true
later now ttl positive = ground arith

marker-marked :
    (key : CacheKey) (s : JobStatus) (w : World)
    → markers_live w ≡ true
    → marker key (marked key s w) ≡ some (job_value s)
marker-marked key s w live =
    let t = or_else w.env.cache_ttl Ttl.default_ttl in
    ap value_of
      (find-upsert_fresh key w.now (entry key s w) w.cache (cache_eq_refl key) (later w.now t live))

abbrev pub status_of : Result Void → JobStatus
status_of (ok _) = completed
status_of (err _) = failed

-- A job without marker, or whose last attempt has failed, is run under its lock, which must be
-- free, and its correlation id. If markers live for some time, the marker is then COMPLETED if
-- the handler has returned and FAILED if it has thrown, and its error is thrown again, so that
-- the queue makes the next attempt. What the handler has left in the database stays, the lock is
-- given back and the context is as before.
pub job_is_run :
    (handlers : QueueJob → Option JobHandler) (event : JobEvent) (job : QueueJob) (key : CacheKey)
    (h : JobHandler) (w : World)
    → handlers job ≡ some h
    → is_taken (marker key w) ≡ false
    → is_held (job_lock job.job_id) w.held ≡ false
    → markers_live (run_handler event h job (begun job key w)).1 ≡ true
    → let (result, left) = run_handler event h job (begun job key w) in
      let (r, w') = execute_job handlers event job key w in
      (r ≡ result)
      × (marker key w' ≡ some (job_value (status_of result)))
      × (w'.committed ≡ left.committed)
      × (w'.held ≡ release (job_lock job.job_id) left.held)
      × (w'.correlation ≡ w.correlation)
unfolding execute_job execute_job_work lock get set
job_is_run handlers event job key h w known untaken free live =
    let (result, left) = run_handler event h job (begun job key w) in
    ground (arith, marker-marked key completed left live, marker-marked key failed left live)
