-- ===== src/Workers/Routing.antt =====
-- Which worker runs a payload: the dispatcher (src/shared/modules/outbox/helpers/outbox-dispatcher.ts) against the
-- handler factories of src/modules/*/providers/factories.
use dispatch_api.Prelude.{Option, some, ◌≡◌, refl}
use dispatch_api.Entities.{
  QueueJob, JobBody, process_order, cancel_order, refund_order, create_customer, update_customer,
  delete_customer, update_user, notify_user,
}
use dispatch_api.World.{World, QueueName, orders, payments, effects, users, M, Void, CacheKey}
use dispatch_api.Jobs.{JobHandler, process as job_process, execute_job, run_handler}
use dispatch_api.Orders.Jobs.{OrderJob, execute}
use dispatch_api.Payments.Jobs.{create_execute, update_execute, delete_execute}
use dispatch_api.Users.{update_user_execute}
use dispatch_api.Effects.{
  notify_handler, notify_execute, effect_key, create_handler as create_effect_handler,
  process as process_effect_job,
}
use dispatch_api.Workers.{
  worker, order_key, payment_key, user_key, create_order_handler, create_payment_handler,
  order_handler, customer_handler, update_handler, create_user_handler, process_order_job,
  process_payment_job, process_user_job,
}
use dispatch_api.Outbox.Waiting.{message_of}
use dispatch_api.Outbox.Dispatcher.{to_queue_job}

-- The queue that the jobs of a payload belong to.
abbrev pub queue_of : JobBody → QueueName
queue_of (process_order _) = orders
queue_of (cancel_order _) = orders
queue_of (refund_order _) = orders
queue_of (create_customer _) = payments
queue_of (update_customer _) = payments
queue_of (delete_customer _) = payments
queue_of (update_user _ _) = users
queue_of (notify_user _ _ _ _) = effects

-- What each payload asks for.
abbrev pub task : JobBody → M Void
task (process_order id) = execute OrderJob.process id
task (cancel_order id) = execute OrderJob.cancel id
task (refund_order id) = execute OrderJob.refund id
task (create_customer user) = create_execute user
task (update_customer user) = update_execute user
task (delete_customer user) = delete_execute user
task (update_user user_id customer_id) = update_user_execute user_id customer_id
task (notify_user user_id type event extra) = notify_execute user_id type event extra

-- The key of the marker of a queue's job.
abbrev pub key_in : QueueName → QueueJob → CacheKey
key_in orders = order_key
key_in payments = payment_key
key_in effects = effect_key
key_in users = user_key

abbrev pub handlers_in : QueueName → QueueJob → Option JobHandler
handlers_in orders = create_order_handler
handlers_in payments = create_payment_handler
handlers_in effects = create_effect_handler
handlers_in users = create_user_handler

pub worker_lem :
    (q : QueueName) (job : QueueJob)
    → worker q job ≡ execute_job (handlers_in q) job_process job (key_in q job)
unfolding process_order_job process_payment_job process_user_job process_effect_job
worker_lem orders job = refl
worker_lem payments job = refl
worker_lem effects job = refl
worker_lem users job = refl

abbrev pub handler_of : JobBody → JobHandler
handler_of (process_order _) = order_handler OrderJob.process
handler_of (cancel_order _) = order_handler OrderJob.cancel
handler_of (refund_order _) = order_handler OrderJob.refund
handler_of (create_customer _) = customer_handler create_execute
handler_of (update_customer _) = customer_handler update_execute
handler_of (delete_customer _) = customer_handler delete_execute
handler_of (update_user _ _) = update_handler
handler_of (notify_user _ _ _ _) = notify_handler

-- The job of a payload that is added in a state.
abbrev pub job_of : JobBody → World → QueueJob
job_of body w = to_queue_job (message_of body w)

-- The factory of the queue that a payload is sent to knows its type.
pub known :
    (body : JobBody) (w : World)
    → handlers_in (queue_of body) (job_of body w) ≡ some (handler_of body)
known (process_order _) w = refl
known (cancel_order _) w = refl
known (refund_order _) w = refl
known (create_customer _) w = refl
known (update_customer _) w = refl
known (delete_customer _) w = refl
known (update_user _ _) w = refl
known (notify_user _ _ _ _) w = refl

-- The strategy does what the payload asks for.
pub does :
    (body : JobBody) (w : World)
    → run_handler job_process (handler_of body) (job_of body w) ≡ task body
does (process_order _) w = refl
does (cancel_order _) w = refl
does (refund_order _) w = refl
does (create_customer _) w = refl
does (update_customer _) w = refl
does (delete_customer _) w = refl
does (update_user _ _) w = refl
does (notify_user _ _ _ _) w = refl
