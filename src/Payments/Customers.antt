-- ===== src/Payments/Customers.antt =====
-- How the job that makes a customer ends (create-customer-job.strategy.ts in
-- src/modules/payments/providers/strategies).
use dispatch_api.Prelude.{
  ℕ, ◌+◌, ◌==◌, ◌≡◌, Bool, true, false, some, none, exists, [], ◌∷◌, ◌++◌, arith, Bool-cases, inl,
  inr,
}
use dispatch_api.Entities.{Customer, UserSnapshot, update_user}
use dispatch_api.Dtos.{customers_create, create_customer_key}
use dispatch_api.World.{World, ok, view, view-write, write_world}
use dispatch_api.Outbox.Waiting.{message_of, push_message, add_lem, jobs_of, jobs-push}
use dispatch_api.Payments.Stripe.{send, create_stripe_customer}
use dispatch_api.Payments.Service.{create_customer, customer_taken}
use dispatch_api.Payments.Rows.{
  customer_row, push_customer, create_customer_lem, create_customer_unknown,
}
use dispatch_api.Payments.Jobs.{params_of, create_execute, skip_missing_user}

-- What is written, by whether the user's row is there.
unfoldable pub CustomerOutcome : Bool → ℕ → UserSnapshot → World → World → Type 0
CustomerOutcome false gateway_id user w w' = view w' ≡ view w
CustomerOutcome true gateway_id user w w' =
    let row : Customer = record {
      id = w.next_id;
      deleted_at = none;
      gateway_customer_id = gateway_id;
      user_id = user.id;
      email = user.email;
      name = user.name;
    } in
    ((view w').customers ≡ (view w).customers ++ (row ∷ []))
    × (jobs_of (view w').outbox
        ≡ jobs_of (view w).outbox ++ (update_user user.id (some row.id) ∷ []))

-- Once the gateway has made the customer, and no customer's row has this user or this customer of the
-- gateway, the job returns. If the user's row is there, the customer's
-- row is added and the update of the user is queued; if it is not, nothing is written, and the customer
-- that the gateway has made stays there with no row that refers to it.
pub create_execute_lem :
    (user : UserSnapshot) (w : World) (gateway_id : ℕ)
    → w.env.create_stripe_customer w.gateway_log (params_of user) ≡ some gateway_id
    → customer_taken user.id gateway_id (view w) ≡ false
    → let (r, w') = create_execute user w in
      (r ≡ ok tt)
      × (w'.gateway_log
          ≡ customers_create (params_of user) (create_customer_key user.id) ∷ w.gateway_log)
      × CustomerOutcome (exists (λ u. u.id == user.id) (view w).users) gateway_id user w w'
unfolding CustomerOutcome create_execute create_customer create_stripe_customer send
    skip_missing_user
create_execute_lem user w gateway_id made new =
    let params = params_of user in
    let c = customer_row gateway_id user.id params w in
    let v = write_world (push_customer c) (record w {
      gateway_log = customers_create params (create_customer_key user.id) ∷ w.gateway_log;
      next_id = w.next_id + 1;
    }) in
    let body = update_user user.id (some c.id) in
    elim (Bool-cases (exists (λ u. u.id == user.id) (view w).users)) [
      | inl here ↦
          let added = add_lem body v in
          let row =
            create_customer_lem user.id params (create_customer_key user.id) w gateway_id made new
              here in
          let pushed = view-write (push_message (message_of body v)) v in
          (
            ground (arith, row, added),
            ground (arith, row, added),
            rw here (
              ground (arith, row, added, pushed, view-write (push_customer c) w),
              ground (
                arith,
                row,
                added,
                pushed,
                view-write (push_customer c) w,
                jobs-push (message_of body v) (view w).outbox,
              ),
            ),
          )
      | inr gone ↦
          let refused =
            create_customer_unknown user.id params (create_customer_key user.id) w gateway_id made
              new gone in
          (ground (arith, refused), ground (arith, refused), rw gone (ground (arith, refused)))
    ]
