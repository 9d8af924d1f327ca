-- ===== src/Tests/Creation.antt =====
-- Runs of publicCreate.
use dispatch_api.Prelude.{ℕ, ◌≡◌, refl, true, some, List, [], ◌∷◌}
use dispatch_api.Prelude.Int.{ℤ, pos, ◌-ℤ◌}
use dispatch_api.Dtos.{PaymentIntent, CreateOrderItem, payment_intents_create, payment_key}
use dispatch_api.World.{is_ok, err, gateway_failed}
use dispatch_api.Items.Levels.{stock_of}
use dispatch_api.Payments.{payment_by_id}
use dispatch_api.Orders.Store.{order_by_id}
use dispatch_api.Orders.Create.{order_sum, public_create}
use dispatch_api.Orders.Create.Rows.{new_order}
use dispatch_api.Orders.Create.Accepted.{Accepted, intent_params}
use dispatch_api.Orders.Create.Outcome.{new_payment, create_succeeds, create_fails_at_gateway}
use dispatch_api.Orders.Stock.{take_all, ordered_of}
use dispatch_api.Tests.Data.{shop, closed, ann}

-- Two lines ask for the same pen: each passes its test, and five pens become minus one.
abbrev lines : List CreateOrderItem
lines = record { item_id = 1; quantity = 3 } ∷ record { item_id = 1; quantity = 3 } ∷ []

accepted : Accepted lines 7 40 600 ann shop
unfolding order_sum
accepted = record {
  free = refl;
  free_items = λ i. refl;
  first = refl;
  covered = refl;
  sum = refl;
  customer = refl;
  fresh_id = refl;
}

abbrev intent : PaymentIntent
intent = record { id = 900; status = "open"; client_secret = some 1 }

create_succeeds_example :
    let (r, w') = public_create lines 7 40 shop in
    let payment = new_payment lines 7 intent shop in
    (is_ok r ≡ true)
    × (order_by_id 1000 w'.committed
        ≡ some (record (new_order 1000 500 7 600) { payment_id = some payment.id }))
    × (payment_by_id payment.id w'.committed ≡ some payment)
    × ((j : ℕ) (s : ℤ)
        → stock_of j shop.committed ≡ some s
        → stock_of j w'.committed ≡ some (s -ℤ pos (ordered_of j lines)))
    × (w'.gateway_log
        ≡ payment_intents_create (intent_params 1000 600 ann) (payment_key 1000 40) ∷ [])
create_succeeds_example = create_succeeds lines 7 40 600 ann shop intent accepted refl refl refl

Accepted-closed : Accepted lines 7 40 600 ann closed
unfolding order_sum
Accepted-closed = record {
  free = refl;
  free_items = λ i. refl;
  first = refl;
  covered = refl;
  sum = refl;
  customer = refl;
  fresh_id = refl;
}

create_fails_at_gateway_example :
    let (r, w') = public_create lines 7 40 closed in
    (r ≡ err gateway_failed) × (w'.committed ≡ take_all lines closed.committed)
create_fails_at_gateway_example =
    create_fails_at_gateway lines 7 40 600 ann closed Accepted-closed refl
