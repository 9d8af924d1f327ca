-- ===== src/Workers/Customers.antt =====
-- What the two jobs of a new customer do outside of a transaction: CreateCustomerJobStrategy.execute
-- (src/modules/payments/providers/strategies) and UpdateUserJobStrategy.execute (src/modules/users/providers/strategies).
use dispatch_api.Prelude.{
  ℕ, ◌+◌, ◌==◌, ◌≡◌, true, false, none, some, exists, find, modify_where, List, [], ◌∷◌, arith,
}
use dispatch_api.Entities.{User, UserSnapshot, update_user, only_live}
use dispatch_api.Dtos.{customers_create, create_customer_key}
use dispatch_api.World.{World, LockKey, user_update, ok}
use dispatch_api.Guard.{is_held, lock}
use dispatch_api.Outbox.Waiting.{message_of, push_message}
use dispatch_api.Outbox
use dispatch_api.Payments.{
  customer_taken, create_customer as make_customer, create_stripe_customer, send,
}
use dispatch_api.Payments.Rows.{customer_row, push_customer}
use dispatch_api.Payments.Jobs.{params_of, create_execute}
use dispatch_api.Users.{row_by_id, update_user_execute}
use dispatch_api.Workers.Exact.{release_own}

-- The state after the customer's job: a row of the customer, and the link of the user in the outbox.
abbrev pub with_customer : UserSnapshot → ℕ → World → World
with_customer user gateway_id w = record w {
  committed =
      push_message
        (message_of (update_user user.id (some w.next_id)) (record w { next_id = w.next_id + 1 }))
        (push_customer (customer_row gateway_id user.id (params_of user) w) w.committed);
  gateway_log = customers_create (params_of user) (create_customer_key user.id) ∷ w.gateway_log;
  next_id = w.next_id + 1 + 3;
  ticks = w.ticks + 1;
}

pub create_execute_calm :
    (user : UserSnapshot) (gateway_id : ℕ) (w : World)
    → w.tx ≡ none
    → w.env.create_stripe_customer w.gateway_log (params_of user) ≡ some gateway_id
    → customer_taken user.id gateway_id w.committed ≡ false
    → exists (λ u. u.id == user.id) w.committed.users ≡ true
    → create_execute user w ≡ (ok tt, with_customer user gateway_id w)
unfolding create_execute make_customer create_stripe_customer send Outbox.add
create_execute_calm user gateway_id w calm made new here = ground arith

abbrev pub link : ℕ → ℕ → World → World
link user_id customer_id w = record w {
  committed = record w.committed {
    users =
        modify_where (λ x. x.id == user_id) (λ x. record x { customer_id = some customer_id })
          w.committed.users;
  };
}

pub has_row :
    (id : ℕ) (us : List User) (u : User)
    → only_live (λ (x : User). x.deleted_at) (find (λ x. x.id == id) us) ≡ some u
    → exists (λ (x : User). x.id == id) us ≡ true
has_row id [] u found = ground (arith, found)
has_row id (x ∷ us) u found = ground (arith, has_row id us u)

abbrev pub user_lock : ℕ → LockKey
user_lock id = record { space = user_update; id = id }

pub update_user_execute_calm :
    (user_id customer_id : ℕ) (u : User) (w : World)
    → w.tx ≡ none
    → row_by_id user_id w.committed ≡ some u
    → is_held (user_lock user_id) w.held ≡ false
    → update_user_execute user_id (some customer_id) w ≡ (ok tt, link user_id customer_id w)
unfolding update_user_execute lock
update_user_execute_calm user_id customer_id u w calm found free =
    ground (arith, release_own (user_lock user_id) w.held)
