-- ===== src/Orders/Listing.antt =====
-- The listings of src/modules/orders/orders.service.ts and the filter of order.repository.ts.
pub mod Owner
pub mod Unordered
use dispatch_api.Prelude.{
  ℕ, Bool, true, false, ◌&&◌, ◌==◌, leb, not, is_some, Option, none, some, List, map, keep,
}
use dispatch_api.Enums.{OrderStatus, status_code}
use dispatch_api.Entities.{Order, Db, is_live}
use dispatch_api.Dtos.{CursorParams, PagCursorResult, OrderResponse}
use dispatch_api.World.{M, pure, query, or_raise, type_error, ◌>>=◌, ◌>>◌}
use dispatch_api.Pagination.{filter_page, map_page, limit_of, cursor_limit, require_limit}
use dispatch_api.Pagination.Newest.{newest_first}
use dispatch_api.Payments.{find_one_payment}
use dispatch_api.Orders.Store.{
  get_order_or_throw, load, user_by_id, to_response, to_public_response,
}

-- src/modules/orders/dto/order-query.dto.ts
pub record OrderQuery : Type 0 where
  pub user_id : Option ℕ
  pub status : Option OrderStatus
  pub start_date : Option ℕ
  pub end_date : Option ℕ

abbrev pub is_of_user : Option ℕ → Order → Bool
is_of_user none o = true
is_of_user (some id) o = o.user_id == id

abbrev pub has_status : Option OrderStatus → Order → Bool
has_status none o = true
has_status (some s) o = status_code o.status == status_code s

-- The dates count if both are given.
abbrev pub is_between : Option ℕ → Option ℕ → Order → Bool
is_between (some a) (some b) o = leb a o.created_at && leb o.created_at b
is_between _ _ o = true

-- The conditions of the query but the cursor's; the user is an inner join.
abbrev pub matches : Db → OrderQuery → Order → Bool
matches db q o =
    is_of_user q.user_id o
    && (is_live o.deleted_at
        && (is_some (user_by_id o.user_id db)
            && (has_status q.status o && is_between q.start_date q.end_date o)))

-- OrderRepository.filter
unfoldable pub filter_orders : OrderQuery → Option CursorParams → Db → PagCursorResult Order
filter_orders q cursor db =
    filter_page (λ (o : Order). o.created_at) cursor
      (newest_first (λ (o : Order). o.created_at) (λ o. o.id) (keep (matches db q) db.orders))

-- publicFindByUser: the id of the caller takes the place of any in the query. The payment is not loaded.
unfoldable pub public_find_by_user :
    OrderQuery → ℕ → Option CursorParams → M (PagCursorResult OrderResponse)
unfolding filter_orders
public_find_by_user q user_id cursor = do
  require_limit (limit_of (cursor_limit cursor))
  query (λ db.
      map_page (λ o. to_public_response (load db o) none)
        (filter_orders (record q { user_id = some user_id }) cursor db))

-- adminFindAll
unfoldable pub admin_find_all : OrderQuery → Option CursorParams → M (PagCursorResult OrderResponse)
unfolding filter_orders
admin_find_all q cursor = do
  require_limit (limit_of (cursor_limit cursor))
  query (λ db.
      map_page (λ o. record (to_response (load db o)) { payment = none })
        (filter_orders q cursor db))

-- adminFindOne
unfoldable pub admin_find_one : ℕ → M OrderResponse
unfolding get_order_or_throw find_one_payment
admin_find_one id = do
  l ← get_order_or_throw id
  p ← or_raise l.payment type_error
  payment ← find_one_payment p.id
  pure (record (to_response l) { payment = payment })
