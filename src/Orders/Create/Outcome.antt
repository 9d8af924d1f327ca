-- ===== src/Orders/Create/Outcome.antt =====
-- How publicCreate of src/modules/orders/orders.service.ts ends.
use dispatch_api.Prelude.{
  ℕ, ◌+◌, ◌==◌, ==_refl, ◌≡◌, true, false, none, some, find, List, [], ◌∷◌, ◌++◌, length,
  find-append, find-upsert, upsert, arith,
}
use dispatch_api.Prelude.Int.{ℤ, pos, ◌-ℤ◌}
use dispatch_api.Entities.{Order, User, Payment, JobBody, notify_user, order_total}
use dispatch_api.Enums.{push, order_created}
use dispatch_api.Dtos.{CreateOrderItem, payment_intents_create, payment_key, PaymentIntent}
use dispatch_api.World.{World, write_world, is_ok, ok, view, err, gateway_failed}
use dispatch_api.Guard.{transaction, lock, lock_and_transaction}
use dispatch_api.Cache.{get, set, get_or_execute}
use dispatch_api.Items.Levels.{stock_of}
use dispatch_api.Outbox.Waiting.{message_of, push_message, add_lem}
use dispatch_api.Orders.Service.{dispatch_notification}
use dispatch_api.Payments.{payment_by_id, payment_taken}
use dispatch_api.Payments.Rows.{
  payment_row, push_payment, charged, create_payment_lem, create_payment_fails,
}
use dispatch_api.Orders.Currency.{language_to_currency, language_to_locale, to_currency_formatted}
use dispatch_api.Orders.Store.{put_order, order_by_id, save_order}
use dispatch_api.Orders.Create.{dispatch_order_created, public_create, public_create_work}
use dispatch_api.Orders.Create.Rows.{new_order, create_order_with_items_lem}
use dispatch_api.Orders.Stock.{
  take_all, ordered_of, take_all-items, stock_of-take_all, catalog_for, validate_lem,
  decrement_items_stock_lem,
}
use dispatch_api.Orders.Create.Accepted.{
  Accepted, intent_params, started, written, taken, reads_back,
}

-- If the gateway refuses the payment, the caller gets the error, and no table but that of the items is
-- changed; but what the lines ask for stays taken from the stock: each decrement has committed in a
-- transaction of its own.
pub create_fails_at_gateway :
    (lines : List CreateOrderItem) (user_id key total : ℕ) (user : User) (w : World)
    → Accepted lines user_id key total user w
    → w.env.create_payment_intent w.gateway_log (intent_params w.next_id total user) ≡ none
    → let (r, w') = public_create lines user_id key w in
      (r ≡ err gateway_failed) × (w'.committed ≡ take_all lines w.committed)
unfolding public_create lock_and_transaction transaction lock get_or_execute get public_create_work
create_fails_at_gateway lines user_id key total user w a refused =
    let w0 = started key w in
    let catalog = catalog_for lines w.committed in
    let o = new_order w.next_id w.now user_id total in
    let v = taken lines o w0 in
    let (loaded, customer) = reads_back lines user_id key total user w a in
    let params = intent_params w.next_id total user in
    ground (
      arith,
      a.free,
      a.first,
      validate_lem lines w0 a.covered,
      create_order_with_items_lem lines user_id catalog w0 total a.sum,
      decrement_items_stock_lem lines catalog (written lines o w0) a.covered a.free_items,
      loaded,
      customer,
      create_payment_fails w.next_id user_id params (payment_key w.next_id key) v refused,
    )

-- The message to the user, in the currency of the user's language.
abbrev created_job : User → ℕ → World → JobBody
created_job user total w = notify_user user.id push order_created (
    order_total (
      w.env.intl_format total (language_to_locale user.language)
        (language_to_currency user.language)))

dispatch_order_created_lem :
    (user : User) (total : ℕ) (w : World)
    → dispatch_order_created user total w ≡ (
      ok tt,
      record (write_world (push_message (message_of (created_job user total w) w)) w) {
        next_id = w.next_id + 3;
        ticks = w.ticks + 1;
      },
    )
unfolding dispatch_order_created dispatch_notification to_currency_formatted
dispatch_order_created_lem user total w = add_lem (created_job user total w) w

-- The id of the payment of an order that is created in this state.
abbrev pub payment_id_of : List CreateOrderItem → World → ℕ
payment_id_of lines w = w.next_id + 1 + length lines

abbrev pub new_payment : List CreateOrderItem → ℕ → PaymentIntent → World → Payment
new_payment lines user_id i w = record {
  id = payment_id_of lines w;
  created_at = w.now;
  deleted_at = none;
  order_id = w.next_id;
  user_id = user_id;
  stripe_payment_intent_id = i.id;
  stripe_client_secret = i.client_secret;
  status = i.status;
}

-- The tables and the log after a request that the gateway has answered.
create_leaves :
    (lines : List CreateOrderItem) (user_id key total : ℕ) (user : User) (w : World)
    (i : PaymentIntent)
    → Accepted lines user_id key total user w
    → w.env.create_payment_intent w.gateway_log (intent_params w.next_id total user) ≡ some i
    → payment_taken w.next_id i.id w.committed ≡ false
    → let (r, w') = public_create lines user_id key w in
      let o = new_order w.next_id w.now user_id total in
      (is_ok r ≡ true)
      × (w'.committed.orders
          ≡ upsert
              (λ x. x.id == w.next_id)
              (record o { payment_id = some (payment_id_of lines w) })
              (w.committed.orders ++ (o ∷ [])))
      × (w'.committed.payments ≡ w.committed.payments ++ (new_payment lines user_id i w ∷ []))
      × (w'.committed.items ≡ (take_all lines w.committed).items)
      × (w'.gateway_log
          ≡ payment_intents_create (intent_params w.next_id total user) (payment_key w.next_id key)
            ∷ w.gateway_log)
unfolding public_create lock_and_transaction transaction lock get_or_execute get set
    public_create_work save_order
create_leaves lines user_id key total user w i a answered new =
    let w0 = started key w in
    let catalog = catalog_for lines w.committed in
    let o = new_order w.next_id w.now user_id total in
    let v = taken lines o w0 in
    let (loaded, customer) = reads_back lines user_id key total user w a in
    let params = intent_params w.next_id total user in
    let key_of = payment_key w.next_id key in
    let p = payment_row w.next_id user_id i v in
    let still_new : payment_taken w.next_id i.id (view v) ≡ false =
      ground (arith, new, take_all-items lines w.committed) in
    let paid_state = write_world (put_order (record o { payment_id = some p.id })) (
      write_world (push_payment p)
        (record (charged params key_of v) { next_id = v.next_id + 1 })) in
    ground (
      arith,
      a.free,
      a.first,
      validate_lem lines w0 a.covered,
      create_order_with_items_lem lines user_id catalog w0 total a.sum,
      decrement_items_stock_lem lines catalog (written lines o w0) a.covered a.free_items,
      loaded,
      customer,
      create_payment_lem w.next_id user_id params key_of v i answered still_new,
      dispatch_order_created_lem user total paid_state,
      take_all-items lines w.committed,
    )

-- If the gateway answers with a payment that no row has, the request returns. The order is pending, costs the sum of its lines and refers to its
-- payment, which holds the answer of the gateway; the stock of every item falls by what the lines ask for
-- of it, summed over the lines; and the gateway gets one request, with the key of the caller and the order.
pub create_succeeds :
    (lines : List CreateOrderItem) (user_id key total : ℕ) (user : User) (w : World)
    (i : PaymentIntent)
    → Accepted lines user_id key total user w
    → find (λ p. p.id == payment_id_of lines w) w.committed.payments ≡ none
    → w.env.create_payment_intent w.gateway_log (intent_params w.next_id total user) ≡ some i
    → payment_taken w.next_id i.id w.committed ≡ false
    → let (r, w') = public_create lines user_id key w in
      let payment = new_payment lines user_id i w in
      (is_ok r ≡ true)
      × (order_by_id w.next_id w'.committed
          ≡ some
              (record (new_order w.next_id w.now user_id total) { payment_id = some payment.id }))
      × (payment_by_id payment.id w'.committed ≡ some payment)
      × ((j : ℕ) (s : ℤ)
          → stock_of j w.committed ≡ some s
          → stock_of j w'.committed ≡ some (s -ℤ pos (ordered_of j lines)))
      × (w'.gateway_log
          ≡ payment_intents_create (intent_params w.next_id total user) (payment_key w.next_id key)
            ∷ w.gateway_log)
create_succeeds lines user_id key total user w i a fresh_payment answered new =
    let (returned, orders, payments, items, logged) =
      create_leaves lines user_id key total user w i a answered new in
    let o = new_order w.next_id w.now user_id total in
    let p = new_payment lines user_id i w in
    (
      returned,
      ground (
        arith,
        orders,
        ==_refl w.next_id,
        find-upsert (λ (x : Order). x.id) (record o { payment_id = some p.id })
            (w.committed.orders ++ (o ∷ [])) w.next_id,
      ),
      ground (
        arith,
        payments,
        fresh_payment,
        ==_refl p.id,
        find-append (λ (x : Payment). x.id) p w.committed.payments p.id,
      ),
      (λ j s level. ground (arith, items, stock_of-take_all lines j w.committed s level)),
      logged,
    )
