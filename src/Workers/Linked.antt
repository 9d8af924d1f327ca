-- ===== src/Workers/Linked.antt =====
-- A new customer from the row of the outbox to the user: CreateCustomerJobStrategy (src/modules/payments/providers/strategies),
-- the row that it adds, and UpdateUserJobStrategy (src/modules/users/providers/strategies).
use dispatch_api.Prelude.{
  ℕ, ◌+◌, ==_refl, ◌≡◌, refl, ap, ◌∙◌, true, false, none, some, [], ◌∷◌, ◌++◌, find-modify_where,
  arith,
}
use dispatch_api.Enums.{in_progress, completed}
use dispatch_api.Entities.{User, UserSnapshot, QueueJob, create_customer, update_user}
use dispatch_api.Dtos.{customers_create, create_customer_key}
use dispatch_api.World.{World, QueueName, ok}
use dispatch_api.Guard.{is_held}
use dispatch_api.Jobs.{is_taken, job_lock}
use dispatch_api.Jobs.Marker.{marker, begun, status_of}
use dispatch_api.Outbox.Cron.{process}
use dispatch_api.Outbox.Waiting.{message_of}
use dispatch_api.Payments.{customer_taken}
use dispatch_api.Payments.Rows.{customer_row}
use dispatch_api.Payments.Jobs.{params_of}
use dispatch_api.Users.{row_by_id}
use dispatch_api.Workers.{worker, payment_key, user_key}
use dispatch_api.Workers.Routing.{job_of}
use dispatch_api.Workers.Carried.{Clear, handed_over, process_alone}
use dispatch_api.Workers.Exact.{finished, worker_finishes, release_own, marker-marked_other}
use dispatch_api.Workers.Customers.{
  with_customer, create_execute_calm, has_row, link, user_lock, update_user_execute_calm,
}

-- The job that makes the customer, and the one that links the user to it.
abbrev pub making : UserSnapshot → World → QueueJob
making user made = job_of (create_customer user) made

abbrev pub linking_in : UserSnapshot → World → World → World
linking_in user made w = record w {
  correlation = some (making user made).payload.correlation_id;
  next_id = w.next_id + 1;
}

abbrev pub linking_job : UserSnapshot → World → World → QueueJob
linking_job user made w = job_of (update_user user.id (some w.next_id)) (linking_in user made w)

-- A state in which the making of a customer waits alone, the gateway makes it, and nothing is in the way of
-- either job.
pub record Linkable (user : UserSnapshot) (u : User) (gateway_id : ℕ) (made w : World)
    : Type 0 where
  pub clear : Clear (create_customer user) made w
  pub calm : w.tx ≡ none
  pub found : row_by_id user.id w.committed ≡ some u
  pub answered : w.env.create_stripe_customer w.gateway_log (params_of user) ≡ some gateway_id
  pub new : customer_taken user.id gateway_id w.committed ≡ false
  pub free : is_held (user_lock user.id) w.held ≡ false
  pub accepting : w.env.accepts QueueName.users (linking_job user made w ∷ []) ≡ true
  pub unmarked : is_taken (marker (user_key (linking_job user made w)) w) ≡ false
  pub unlocked : is_held (job_lock (linking_job user made w).job_id) w.held ≡ false

module _ (user : UserSnapshot) (u : User) (gateway_id : ℕ) (made w : World)
    (l : Linkable user u gateway_id made w) where
  row_linked :
      row_by_id user.id (link user.id w.next_id w).committed
      ≡ some (record u { customer_id = some w.next_id })
  row_linked = ground (
    arith,
    l.found,
    ==_refl user.id,
    find-modify_where (λ (x : User). x.id) (λ x. record x { customer_id = some w.next_id })
        w.committed.users user.id user.id (λ x. refl),
  )

  abbrev job1 : QueueJob
  job1 = making user made

  abbrev job2 : QueueJob
  job2 = linking_job user made w

  abbrev w1 : World
  w1 = handed_over (message_of (create_customer user) made) w

  abbrev making_begins : World
  making_begins = begun job1 (payment_key job1) w1

  abbrev w2 : World
  w2 = finished job1 (payment_key job1) w1 completed (with_customer user gateway_id making_begins)

  abbrev w3 : World
  w3 = handed_over (message_of (update_user user.id (some w.next_id)) (linking_in user made w)) w2

  abbrev linking_begins : World
  linking_begins = begun job2 (user_key job2) w3

  abbrev w4 : World
  w4 = finished job2 (user_key job2) w3 completed (link user.id w.next_id linking_begins)

  first_cycle : process w ≡ (ok tt, w1)
  first_cycle =
      let c = l.clear in
      process_alone (message_of (create_customer user) made) w c.alone refl c.running c.idle
        c.accepting

  making_done : worker QueueName.payments job1 w1 ≡ (ok tt, w2)
  making_done =
      worker_finishes (create_customer user) made w1 l.clear.unmarked l.clear.unlocked
      ∙ ap (λ x. (x.0, finished job1 (payment_key job1) w1 (status_of x.0) x.1))
          (create_execute_calm user gateway_id making_begins l.calm l.answered l.new
            (has_row user.id w.committed.users u l.found))

  held2 : w2.held ≡ w.held
  held2 = release_own (job_lock job1.job_id) w.held

  second_cycle : process w2 ≡ (ok tt, w3)
  second_cycle =
      process_alone (message_of (update_user user.id (some w.next_id)) (linking_in user made w)) w2
        refl refl l.clear.running refl l.accepting

  unmarked2 : is_taken (marker (user_key job2) w3) ≡ false
  unmarked2 =
      let key1 = payment_key job1 in
      let key2 = user_key job2 in
      ap is_taken (
        marker-marked_other key1 key2 completed (with_customer user gateway_id making_begins) refl
        ∙ marker-marked_other key1 key2 in_progress w1 refl)
      ∙ l.unmarked

  linking_done : worker QueueName.users job2 w3 ≡ (ok tt, w4)
  linking_done =
      worker_finishes (update_user user.id (some w.next_id)) (linking_in user made w) w3 unmarked2
        (ap (is_held (job_lock job2.job_id)) held2 ∙ l.unlocked)
      ∙ ap (λ x. (x.0, finished job2 (user_key job2) w3 (status_of x.0) x.1))
          (update_user_execute_calm user.id w.next_id u linking_begins l.calm l.found
            (ap (is_held (user_lock user.id)) held2 ∙ l.free))

  -- The making of a customer waits alone in the outbox, for a user whose row is there and not removed.
  -- No transaction is open, no cycle runs and the process is not shutting down; both queues take their
  -- jobs, neither job has a marker or a lock, the lock of the user is free, and the gateway makes a
  -- customer that no row has. Then the job goes to the payments worker in one cycle: the gateway makes
  -- the customer, its row is stored, and the link waits in the outbox. The next cycle hands the link
  -- to the users worker, under the same correlation id, and it writes the id of that row into the
  -- user's row. The outbox is then empty and all locks are given back.
  pub customer_is_linked :
      let customer = customer_row gateway_id user.id (params_of user) w in
      let (r1, v1) = process w in
      let (r2, v2) = worker QueueName.payments job1 v1 in
      let (r3, v3) = process v2 in
      let (r4, v4) = worker QueueName.users job2 v3 in
      (v1.payment_queue ≡ w.payment_queue ++ (job1 ∷ []))
      × (v3.user_queue ≡ w.user_queue ++ (job2 ∷ []))
      × (job2.payload.correlation_id ≡ job1.payload.correlation_id)
      × (r1 ≡ ok tt)
      × (r2 ≡ ok tt)
      × (r3 ≡ ok tt)
      × (r4 ≡ ok tt)
      × (v4.gateway_log
          ≡ customers_create (params_of user) (create_customer_key user.id) ∷ w.gateway_log)
      × (v4.committed.customers ≡ w.committed.customers ++ (customer ∷ []))
      × (row_by_id user.id v4.committed ≡ some (record u { customer_id = some customer.id }))
      × (v4.committed.outbox ≡ [])
      × (v4.held ≡ w.held)
  customer_is_linked =
      rw (first_cycle, making_done, second_cycle, linking_done)
        (
          refl,
          refl,
          refl,
          refl,
          refl,
          refl,
          refl,
          refl,
          refl,
          row_linked,
          refl,
          release_own (job_lock job2.job_id) w3.held ∙ held2,
        )
