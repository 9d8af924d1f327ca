-- ===== src/Orders/Create.antt =====
-- src/modules/orders/orders.service.ts: publicCreate.
pub mod Rows
pub mod Accepted
pub mod Outcome
use dispatch_api.Prelude.{ℕ, ◌+◌, ◌*◌, Option, none, some, List, [], ◌∷◌, ◌++◌, map, if◌then◌else◌}
use dispatch_api.Prelude.Int.{pos, ltb_ℤ}
use dispatch_api.Enums.{pending, order_created}
use dispatch_api.Entities.{Order, OrderItem, Item, User, order_total}
use dispatch_api.Dtos.{CreateOrderItem, PaymentIntentParams, CacheValue, order_value, payment_key}
use dispatch_api.World.{
  LockKey, CacheKey, order_create, order_create_once, insufficient_stock, type_error, Result, ok,
  err, M, Void, pure, raise, gets, or_raise, write, fresh, ◌>>=◌, ◌>>◌,
}
use dispatch_api.Guard.{lock_and_transaction}
use dispatch_api.Cache.{get_or_execute}
use dispatch_api.Items.{find_item, decrement_item_stock, validate_and_get_catalog_items}
use dispatch_api.Payments.{create_payment}
use dispatch_api.Orders.Currency.{language_to_currency, language_to_locale, to_currency_formatted}
use dispatch_api.Orders.Store.{get_order_or_throw, save_order, to_public_response}
use dispatch_api.Orders.Service.{dispatch_notification}

-- The sum in createOrderWithItems; `none` where a line names no item of the catalogue, at which
-- `ci.price` throws.
unfoldable pub order_sum : List Item → List CreateOrderItem → ℕ → Option ℕ
order_sum catalog [] sum = some sum
order_sum catalog (l ∷ ls) sum = elim (find_item l.item_id catalog) [
  | none ↦ none
  | some ci ↦ order_sum catalog ls (sum + ci.price * l.quantity)
]

abbrev pub line_row : ℕ → ℕ → CreateOrderItem → OrderItem
line_row order_id id l = record {
  id = id;
  order_id = order_id;
  item_id = l.item_id;
  quantity = l.quantity;
}

-- The rows that are created for the lines, each with an id of its own.
unfoldable pub create_rows : ℕ → List CreateOrderItem → M (List OrderItem)
create_rows order_id [] = pure []
create_rows order_id (l ∷ ls) = do
  id ← fresh
  rows ← create_rows order_id ls
  pure (line_row order_id id l ∷ rows)

-- createOrderWithItems
unfoldable pub create_order_with_items : List CreateOrderItem → ℕ → List Item → M Order
unfolding order_sum create_rows
create_order_with_items lines user_id catalog = do
  total ← or_raise (order_sum catalog lines 0) type_error
  id ← fresh
  now ← gets (λ w. w.now)
  let order : Order = record {
    id = id;
    created_at = now;
    deleted_at = none;
    user_id = user_id;
    status = pending;
    total = total;
    payment_id = none;
    tracking_number = none;
    carrier = none;
    shipped_at = none;
    delivered_at = none;
  }
  write (λ db. record db { orders = db.orders ++ (order ∷ []) })
  rows ← create_rows id lines
  write (λ db. record db { order_items = db.order_items ++ rows })
  pure order

-- Two promises that are both started: both run to their end, and an error of the second, which a
-- synchronous throw may be, comes before one of the first.
abbrev pub join : Result Void → Result Void → Result Void
join first (err e) = err e
join first (ok _) = first

abbrev pub both : M Void → M Void → M Void
both m k w = let (r, w') = m w in let (r', w'') = k w' in (join r r', w'')

-- decrementItemsStock: `map` starts one decrement after the other, until one throws at its test.
-- What has been started is not undone by that.
unfoldable pub decrement_items_stock : List CreateOrderItem → List Item → M Void
decrement_items_stock [] catalog = pure tt
decrement_items_stock (l ∷ ls) catalog =
    let rest = decrement_items_stock ls catalog in
    elim (find_item l.item_id catalog) [
      | none ↦ raise type_error
      | some item ↦
          if ltb_ℤ item.stock (pos l.quantity)
          then raise (insufficient_stock item.name)
          else both (decrement_item_stock item l.quantity) rest
    ]

-- dispatchOrderCreatedNotification
unfoldable pub dispatch_order_created : User → ℕ → M Void
unfolding to_currency_formatted
dispatch_order_created user total = do
  text ←
      to_currency_formatted total (language_to_locale user.language)
        (language_to_currency user.language)
  dispatch_notification user.id order_created (order_total text)

-- _publicCreate
unfoldable pub public_create_work : List CreateOrderItem → ℕ → ℕ → M CacheValue
public_create_work lines user_id idempotency_key = do
  catalog ← validate_and_get_catalog_items (map (λ (l : CreateOrderItem). l.item_id) lines)
  created ← create_order_with_items lines user_id catalog
  decrement_items_stock lines catalog
  l ← get_order_or_throw created.id
  user ← or_raise l.user type_error
  let params : PaymentIntentParams = record {
    amount = l.order.total;
    currency = language_to_currency user.language;
    customer = none;
    order_id = some l.order.id;
  }
  payment ← create_payment l.order.id user_id params (payment_key l.order.id idempotency_key)
  let o : Order = record l.order { payment_id = some payment.id }
  save_order o
  dispatch_order_created user o.total
  pure (order_value (to_public_response (record l { order = o }) (some payment)))

abbrev pub create_lock : ℕ → LockKey
create_lock key = record { space = order_create; id = key }

abbrev pub create_once : ℕ → CacheKey
create_once key = record { space = order_create_once; id = key }

-- publicCreate
unfoldable pub public_create : List CreateOrderItem → ℕ → ℕ → M CacheValue
public_create lines user_id idempotency_key = lock_and_transaction (create_lock idempotency_key) (
    get_or_execute (create_once idempotency_key) (public_create_work lines user_id idempotency_key))
