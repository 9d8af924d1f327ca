-- ===== src/Orders/Create/Accepted.antt =====
-- A request that publicCreate of src/modules/orders/orders.service.ts accepts, up to the payment.
use dispatch_api.Prelude.{
  ℕ, ◌+◌, ==_refl, ◌≡◌, true, false, none, some, ◌&&◌, find, List, ◌∷◌, length, find-append, arith,
}
use dispatch_api.Entities.{Order, User}
use dispatch_api.Dtos.{CreateOrderItem, PaymentIntentParams}
use dispatch_api.World.{World, write_world, ok, view}
use dispatch_api.Guard.{is_held, opened}
use dispatch_api.Cache.{has_key, is_fresh}
use dispatch_api.Items.Levels.{FreeItems}
use dispatch_api.Orders.Currency.{language_to_currency}
use dispatch_api.Orders.Store.{load, order_row, user_by_id, find_order, get_order_or_throw}
use dispatch_api.Orders.Create.{order_sum, create_lock, create_once}
use dispatch_api.Orders.Create.Rows.{new_order, rows_from, add_order}
use dispatch_api.Orders.Stock.{covers, take_all, take_all-items, catalog_for}

-- What is sent to the gateway for a new order.
abbrev pub intent_params : ℕ → ℕ → User → PaymentIntentParams
intent_params order_id total user = record {
  amount = total;
  currency = language_to_currency user.language;
  customer = none;
  order_id = some order_id;
}

-- A request for an order that passes every test that is made before the payment.
pub record Accepted (lines : List CreateOrderItem) (user_id key total : ℕ) (user : User) (w : World)
    : Type 0 where
  pub free : is_held (create_lock key) w.held ≡ false
  pub free_items : FreeItems w
  pub first : find (λ e. has_key (create_once key) e && is_fresh w.now e) w.cache ≡ none
  pub covered : covers (catalog_for lines w.committed) lines ≡ true
  pub sum : order_sum (catalog_for lines w.committed) lines 0 ≡ some total
  pub customer : user_by_id user_id w.committed ≡ some user
  pub fresh_id : order_row w.next_id w.committed ≡ none

-- The state in the lock and the transaction.
abbrev pub started : ℕ → World → World
started key w = opened (record w { held = create_lock key ∷ w.held })

-- The state once the rows are written.
abbrev pub written : List CreateOrderItem → Order → World → World
written lines o w =
    write_world (add_order o (rows_from (w.next_id + 1) w.next_id lines))
      (record w { next_id = w.next_id + 1 + length lines })

-- The state once the stock is taken.
abbrev pub taken : List CreateOrderItem → Order → World → World
taken lines o w = record (written lines o w) { committed = take_all lines w.committed }

-- The order is read back as it has been written.
pub reads_back :
    (lines : List CreateOrderItem) (user_id key total : ℕ) (user : User) (w : World)
    → Accepted lines user_id key total user w
    → let w0 = started key w in
      let o = new_order w.next_id w.now user_id total in
      let v = taken lines o w0 in
      (get_order_or_throw o.id v ≡ (ok (load (view v) o), v))
      × (user_by_id user_id (view v) ≡ some user)
unfolding get_order_or_throw find_order
reads_back lines user_id key total user w a =
    let o = new_order w.next_id w.now user_id total in
    (
      ground (
        arith,
        a.fresh_id,
        take_all-items lines w.committed,
        find-append (λ (x : Order). x.id) o w.committed.orders w.next_id,
        ==_refl w.next_id,
      ),
      ground (arith, a.customer, take_all-items lines w.committed),
    )
