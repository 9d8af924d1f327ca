-- ===== src/Tests/SignUp.antt =====
-- A run of a sign-up to its end.
use dispatch_api.Prelude.{◌≡◌, refl, some, none, [], ◌∷◌, ◌++◌}
use dispatch_api.Entities.{UserSnapshot}
use dispatch_api.Dtos.{CreateUser, user_value, customers_create, create_customer_key}
use dispatch_api.World.{World, QueueName, ok}
use dispatch_api.Guard.{lock, transaction, lock_and_transaction}
use dispatch_api.Cache.{get, set, get_or_execute}
use dispatch_api.Outbox
use dispatch_api.Outbox.Cron.{process}
use dispatch_api.Payments.Rows.{customer_row}
use dispatch_api.Payments.Jobs.{params_of}
use dispatch_api.Users.{row_by_id}
use dispatch_api.Users.Accounts.{
  public_create, public_create_work, email_exists, save_new_user, save_users, to_self_response,
}
use dispatch_api.Users.NewAccount.{new_account}
use dispatch_api.Users.SignedUp.{Accepted, row_made, account_snapshot}
use dispatch_api.Workers.{worker}
use dispatch_api.Workers.Linked.{making, linking_job}
use dispatch_api.Workers.SignUp.{Unhindered, sign_up_is_linked}
use dispatch_api.Tests.Data.{shop, db}

abbrev open_shop : World
open_shop = record shop { committed = record db { outbox = [] } }

abbrev newcomer : CreateUser
newcomer = record {
  name = "Mia";
  email = "mia@shop";
  password = "secret";
  role = none;
  language = none;
  address = none;
}

newcomer-Accepted : Accepted newcomer 3 open_shop
newcomer-Accepted = record { free = refl; first = refl; new = refl; complete = refl; unused = refl }

abbrev mia : UserSnapshot
mia = account_snapshot newcomer 3 open_shop newcomer-Accepted

abbrev made : World
made = row_made newcomer 3 open_shop newcomer-Accepted

mia-Unhindered : Unhindered mia 960 made (public_create newcomer 3 open_shop).1
unfolding public_create public_create_work lock_and_transaction lock transaction get_or_execute get
    set email_exists save_new_user save_users Outbox.add
mia-Unhindered = record {
  running = refl;
  idle = refl;
  accepting = refl;
  unmarked = refl;
  unlocked = refl;
  answered = refl;
  new = refl;
  free = refl;
  accepting_link = refl;
  unmarked_link = refl;
  unlocked_link = refl;
}

sign_up_is_linked_example :
    let account = new_account newcomer open_shop in
    let (r0, w0) = public_create newcomer 3 open_shop in
    let (r1, w1) = process w0 in
    let (r2, w2) = worker QueueName.payments (making mia made) w1 in
    let (r3, w3) = process w2 in
    let (r4, w4) = worker QueueName.users (linking_job mia made w0) w3 in
    let customer = customer_row 960 account.id (params_of mia) w0 in
    (r0 ≡ ok (user_value (record (to_self_response account) { address = none })))
    × (r1 ≡ ok tt)
    × (r2 ≡ ok tt)
    × (r3 ≡ ok tt)
    × (r4 ≡ ok tt)
    × (w4.gateway_log
        ≡ customers_create (params_of mia) (create_customer_key account.id) ∷ w0.gateway_log)
    × (w4.committed.customers ≡ w0.committed.customers ++ (customer ∷ []))
    × (row_by_id account.id w4.committed ≡ some (record account { customer_id = some customer.id }))
    × (w4.committed.outbox ≡ [])
sign_up_is_linked_example =
    sign_up_is_linked newcomer 3 960 open_shop newcomer-Accepted refl refl mia-Unhindered
