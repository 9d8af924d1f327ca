-- ===== src/Workers/SignUp.antt =====
-- A new account from the request to the link with its customer: publicCreate of src/modules/users/users.service.ts, then
-- the jobs of the payment and user queues.
use dispatch_api.Prelude.{ℕ, ◌≡◌, ap, ◌∙◌, true, false, none, some, [], ◌∷◌, ◌++◌}
use dispatch_api.Entities.{UserSnapshot, create_customer}
use dispatch_api.Dtos.{CreateUser, user_value, customers_create, create_customer_key}
use dispatch_api.World.{World, QueueName, ok}
use dispatch_api.Guard.{is_held}
use dispatch_api.Jobs.{is_taken, job_lock}
use dispatch_api.Jobs.Marker.{marker}
use dispatch_api.Outbox.Cron.{process}
use dispatch_api.Outbox.Waiting.{message_of}
use dispatch_api.Payments.{customer_taken}
use dispatch_api.Payments.Rows.{customer_row}
use dispatch_api.Payments.Jobs.{params_of}
use dispatch_api.Users.{row_by_id}
use dispatch_api.Users.Accounts.{public_create, to_self_response}
use dispatch_api.Users.NewAccount.{new_account}
use dispatch_api.Users.Created.{public_create_succeeds}
use dispatch_api.Users.SignedUp.{
  Accepted, row_made, account_snapshot, signed_up-tx, signed_up-outbox, signed_up-row,
}
use dispatch_api.Workers.Customers.{user_lock}
use dispatch_api.Workers.{worker, payment_key, user_key}
use dispatch_api.Workers.Linked.{Linkable, making, linking_job, customer_is_linked}

-- The cycle may run, the gateway makes the customer, and nothing is in the way of either job.
pub record Unhindered (user : UserSnapshot) (gateway_id : ℕ) (made w : World) : Type 0 where
  pub running : w.is_shutting_down ≡ false
  pub idle : w.is_processing ≡ false
  pub accepting : w.env.accepts QueueName.payments (making user made ∷ []) ≡ true
  pub unmarked : is_taken (marker (payment_key (making user made)) w) ≡ false
  pub unlocked : is_held (job_lock (making user made).job_id) w.held ≡ false
  pub answered : w.env.create_stripe_customer w.gateway_log (params_of user) ≡ some gateway_id
  pub new : customer_taken user.id gateway_id w.committed ≡ false
  pub free : is_held (user_lock user.id) w.held ≡ false
  pub accepting_link : w.env.accepts QueueName.users (linking_job user made w ∷ []) ≡ true
  pub unmarked_link : is_taken (marker (user_key (linking_job user made w)) w) ≡ false
  pub unlocked_link : is_held (job_lock (linking_job user made w).job_id) w.held ≡ false

module _ (dto : CreateUser) (key gateway_id : ℕ) (w : World) (a : Accepted dto key w)
    (calm : w.tx ≡ none) (alone : w.committed.outbox ≡ [])
    (u : Unhindered
      (account_snapshot dto key w a)
      gateway_id
      (row_made dto key w a)
      (public_create dto key w).1) where
  abbrev user : UserSnapshot
  user = account_snapshot dto key w a

  abbrev made : World
  made = row_made dto key w a

  signed_up-Linkable : Linkable user (new_account dto w) gateway_id made (public_create dto key w).1
  signed_up-Linkable = record {
    clear = record {
      alone =
          signed_up-outbox dto key w a
          ∙ ap (λ ms. ms ++ (message_of (create_customer user) made ∷ [])) alone;
      running = u.running;
      idle = u.idle;
      accepting = u.accepting;
      unmarked = u.unmarked;
      unlocked = u.unlocked;
    };
    calm = signed_up-tx dto key w a ∙ calm;
    found = signed_up-row dto key w a;
    answered = u.answered;
    new = u.new;
    free = u.free;
    accepting = u.accepting_link;
    unmarked = u.unmarked_link;
    unlocked = u.unlocked_link;
  }

  -- A request for an account is accepted: its lock is free, its key new, its email in no row, its
  -- address complete or absent, and the id of the account unused. No transaction is open and nothing
  -- waits in the outbox. If, after it, no cycle runs and the process is not shutting down, both queues
  -- take their jobs, neither job has a marker or a lock, the lock of the user is free, and the gateway
  -- makes a customer that no row has: then the request is followed, over two cycles and two jobs, by
  -- the making of its customer. The row of the new account has the id of the customer's row, which
  -- holds the customer of the gateway, the gateway has been asked once, and the outbox is empty.
  pub sign_up_is_linked :
      let account = new_account dto w in
      let (r0, w0) = public_create dto key w in
      let (r1, w1) = process w0 in
      let (r2, w2) = worker QueueName.payments (making user made) w1 in
      let (r3, w3) = process w2 in
      let (r4, w4) = worker QueueName.users (linking_job user made w0) w3 in
      let customer = customer_row gateway_id account.id (params_of user) w0 in
      (r0 ≡ ok (user_value (record (to_self_response account) { address = dto.address })))
      × (r1 ≡ ok tt)
      × (r2 ≡ ok tt)
      × (r3 ≡ ok tt)
      × (r4 ≡ ok tt)
      × (w4.gateway_log
          ≡ customers_create (params_of user) (create_customer_key account.id) ∷ w0.gateway_log)
      × (w4.committed.customers ≡ w0.committed.customers ++ (customer ∷ []))
      × (row_by_id account.id w4.committed
          ≡ some (record account { customer_id = some customer.id }))
      × (w4.committed.outbox ≡ [])
  sign_up_is_linked =
      let created = public_create_succeeds dto key w a.free a.first a.new a.complete in
      let (_, _, _, r1, r2, r3, r4, log, customers, row, outbox, _) =
        customer_is_linked user (new_account dto w) gateway_id made (public_create dto key w).1
          signed_up-Linkable in
      (created.0, r1, r2, r3, r4, log, customers, row, outbox)
