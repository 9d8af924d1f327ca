-- ===== src/Workers.antt =====
-- The workers of the queues: the handler factories and processors of src/modules/orders, payments and users.
-- That of the effects stands with its job.
pub mod Routing
pub mod Carried
pub mod Cancellation
pub mod Exact
pub mod Customers
pub mod Linked
pub mod SignUp
use dispatch_api.Prelude.{ℕ, Option, none, some}
use dispatch_api.Enums.{
  order_process, order_cancel, order_refund, payment_create_customer, payment_update_customer,
  payment_delete_customer, user_update,
}
use dispatch_api.Entities.{
  UserSnapshot, JobBody, process_order, cancel_order, refund_order, create_customer,
  update_customer, delete_customer, update_user, QueueJob,
}
use dispatch_api.World.{
  CacheKey, order_job_once, payment_job_once, user_job_once, QueueName, M, Void, pure,
}
use dispatch_api.Jobs.{
  JobHandler, process as job_process, execute_job, process_failed as job_failed,
}
use dispatch_api.Orders.Jobs.{
  OrderJob, process, cancel, refund, execute, process_execute_after_fail, cancel_execute_after_fail,
  refund_execute_after_fail,
}
use dispatch_api.Payments.Jobs.{create_execute, update_execute, delete_execute}
use dispatch_api.Users.{update_user_execute}
use dispatch_api.Effects as Effects

-- `job.data.orderId`; a job has the payload of its name, since a row of the outbox has.
abbrev pub with_order : (ℕ → M Void) → JobBody → M Void
with_order work (process_order id) = work id
with_order work (cancel_order id) = work id
with_order work (refund_order id) = work id
with_order work _ = pure tt

abbrev pub after_fail_of : OrderJob → ℕ → M Void
after_fail_of process = process_execute_after_fail
after_fail_of cancel = cancel_execute_after_fail
after_fail_of refund = refund_execute_after_fail

abbrev pub order_handler : OrderJob → JobHandler
order_handler k = record {
  execute = λ job. with_order (execute k) job.payload.body;
  execute_after_fail = λ job. with_order (after_fail_of k) job.payload.body;
}

-- OrderJobHandlerFactory.createHandler
abbrev pub create_order_handler : QueueJob → Option JobHandler
create_order_handler job = elim job.name [
  | order_process ↦ some (order_handler process)
  | order_cancel ↦ some (order_handler cancel)
  | order_refund ↦ some (order_handler refund)
  | _ ↦ none
]

abbrev pub order_key : QueueJob → CacheKey
order_key job = record { space = order_job_once; id = job.job_id }

-- OrderProcessor.process
unfoldable pub process_order_job : QueueJob → M Void
process_order_job job = execute_job create_order_handler job_process job (order_key job)

-- OrderProcessor.processFailed
unfoldable pub order_job_failed : ℕ → Option ℕ → QueueJob → M Void
order_job_failed attempts_made attempts job =
    job_failed attempts_made attempts create_order_handler job (order_key job)

-- `job.data.userDto`
abbrev pub with_user : (UserSnapshot → M Void) → JobBody → M Void
with_user work (create_customer user) = work user
with_user work (update_customer user) = work user
with_user work (delete_customer user) = work user
with_user work _ = pure tt

-- A strategy of the payments; executeAfterFail only logs.
abbrev pub customer_handler : (UserSnapshot → M Void) → JobHandler
customer_handler work = record {
  execute = λ job. with_user work job.payload.body;
  execute_after_fail = λ job. pure tt;
}

-- PaymentJobHandlerFactory.createHandler
abbrev pub create_payment_handler : QueueJob → Option JobHandler
create_payment_handler job = elim job.name [
  | payment_create_customer ↦ some (customer_handler create_execute)
  | payment_update_customer ↦ some (customer_handler update_execute)
  | payment_delete_customer ↦ some (customer_handler delete_execute)
  | _ ↦ none
]

abbrev pub payment_key : QueueJob → CacheKey
payment_key job = record { space = payment_job_once; id = job.job_id }

-- PaymentsProcessor.process
unfoldable pub process_payment_job : QueueJob → M Void
process_payment_job job = execute_job create_payment_handler job_process job (payment_key job)

-- PaymentsProcessor.processFailed
unfoldable pub payment_job_failed : ℕ → Option ℕ → QueueJob → M Void
payment_job_failed attempts_made attempts job =
    job_failed attempts_made attempts create_payment_handler job (payment_key job)

abbrev pub run_update : JobBody → M Void
run_update (update_user user_id customer_id) = update_user_execute user_id customer_id
run_update _ = pure tt

-- UpdateUserJobStrategy
abbrev pub update_handler : JobHandler
update_handler = record {
  execute = λ job. run_update job.payload.body;
  execute_after_fail = λ job. pure tt;
}

-- UserJobHandlerFactory.createHandler
abbrev pub create_user_handler : QueueJob → Option JobHandler
create_user_handler job = elim job.name [ user_update ↦ some update_handler | _ ↦ none ]

abbrev pub user_key : QueueJob → CacheKey
user_key job = record { space = user_job_once; id = job.job_id }

-- UsersProcessor.process
unfoldable pub process_user_job : QueueJob → M Void
process_user_job job = execute_job create_user_handler job_process job (user_key job)

-- UsersProcessor.processFailed
unfoldable pub user_job_failed : ℕ → Option ℕ → QueueJob → M Void
user_job_failed attempts_made attempts job =
    job_failed attempts_made attempts create_user_handler job (user_key job)

-- `@Processor(name)`: the processor that BullMQ hands the jobs of a queue to.
abbrev pub worker : QueueName → QueueJob → M Void
worker QueueName.orders = process_order_job
worker QueueName.payments = process_payment_job
worker QueueName.effects = Effects.process
worker QueueName.users = process_user_job
