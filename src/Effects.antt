-- ===== src/Effects.antt =====
-- src/modules/effects: what the workers of the effects queue do.
pub mod Notified
use dispatch_api.Prelude.{ℕ, Option, none, some}
use dispatch_api.Enums.{NotificationType, NotificationEvent, effects_notify_user}
use dispatch_api.Entities.{NotificationData, JobBody, notify_user as notify_job, QueueJob}
use dispatch_api.World.{
  CacheKey, effect_job_once, Error, foreign_key_violation, M, Void, pure, raise, catch, ◌>>=◌, ◌>>◌,
}
use dispatch_api.Jobs.{
  JobHandler, process as job_process, execute_job, process_failed as job_failed,
}
use dispatch_api.Notifications.{create}
use dispatch_api.Notifications.Inbox.{find_translated_by_id}

-- NotifyUserJobStrategy.notifyUser: the translation is for the log only, and its errors are dropped.
unfoldable pub notify_user : ℕ → NotificationType → NotificationEvent → NotificationData → M Void
notify_user user_id type event extra = do
  n ← create user_id type event extra
  catch (do find_translated_by_id n.id; pure tt) (λ _. pure tt)

-- The `catch` of execute: 23503 is the violation of a foreign key.
unfoldable pub skip_missing_user : Error → M Void
skip_missing_user foreign_key_violation = pure tt
skip_missing_user e = raise e

-- NotifyUserJobStrategy.execute
unfoldable pub notify_execute : ℕ → NotificationType → NotificationEvent → NotificationData → M Void
notify_execute user_id type event extra =
    catch (notify_user user_id type event extra) skip_missing_user

-- A job of this queue has this payload, since a row of the outbox has the type of its payload.
abbrev pub run_body : JobBody → M Void
run_body (notify_job user_id type event extra) = notify_execute user_id type event extra
run_body _ = pure tt

-- executeAfterFail only logs.
abbrev pub notify_handler : JobHandler
notify_handler = record {
  execute = λ job. run_body job.payload.body;
  execute_after_fail = λ job. pure tt;
}

-- EffectJobHandlerFactory.createHandler
abbrev pub create_handler : QueueJob → Option JobHandler
create_handler job = elim job.name [ effects_notify_user ↦ some notify_handler | _ ↦ none ]

abbrev pub effect_key : QueueJob → CacheKey
effect_key job = record { space = effect_job_once; id = job.job_id }

-- EffectsProcessor.process
unfoldable pub process : QueueJob → M Void
process job = execute_job create_handler job_process job (effect_key job)

-- EffectsProcessor.processFailed
unfoldable pub process_failed : ℕ → Option ℕ → QueueJob → M Void
process_failed attempts_made attempts job =
    job_failed attempts_made attempts create_handler job (effect_key job)
