-- ===== src/Orders/Store.antt =====
-- Orders as the repository loads them, with their relations (base.repository.ts, order.entity.ts).
use dispatch_api.Prelude.{
  ℕ, ◌==◌, Option, none, some, List, find, keep, upsert, modify_where, map_option,
}
use dispatch_api.Enums.{OrderStatus}
use dispatch_api.Entities.{Order, OrderItem, User, Payment, Db, only_live}
use dispatch_api.Dtos.{OrderResponse, PaymentResponse}
use dispatch_api.World.{order_not_found, type_error, M, Void, query, or_raise, write, ◌>>=◌}
use dispatch_api.Payments.{payment_by_id, to_payment_response}

-- A soft-deleted user or payment is not joined, and leaves the relation empty.
pub record LoadedOrder : Type 0 where
  pub order : Order
  pub user : Option User
  pub items : List OrderItem
  pub payment : Option Payment

-- The row of an id, the primary key, soft-deleted or not.
abbrev pub order_row : ℕ → Db → Option Order
order_row id db = find (λ o. o.id == id) db.orders

-- What `findOne({ where: { id } })` gives: a soft-deleted row is not found.
abbrev pub order_by_id : ℕ → Db → Option Order
order_by_id id db = only_live (λ (o : Order). o.deleted_at) (order_row id db)

abbrev pub user_by_id : ℕ → Db → Option User
user_by_id id db = only_live (λ (u : User). u.deleted_at) (find (λ u. u.id == id) db.users)

abbrev pub payment_of : Option ℕ → Db → Option Payment
payment_of none db = none
payment_of (some id) db = payment_by_id id db

abbrev pub load : Db → Order → LoadedOrder
load db o = record {
  order = o;
  user = user_by_id o.user_id db;
  items = keep (λ i. i.order_id == o.id) db.order_items;
  payment = payment_of o.payment_id db;
}

-- `findById(id, { relations: … })`; the items are an eager relation.
unfoldable pub find_order : ℕ → M (Option LoadedOrder)
find_order id = query (λ db. map_option (load db) (order_by_id id db))

-- OrdersService.getOrderOrThrow
unfoldable pub get_order_or_throw : ℕ → M LoadedOrder
unfolding find_order
get_order_or_throw id = do found ← find_order id; or_raise found order_not_found

abbrev pub put_order : Order → Db → Db
put_order o db = record db { orders = upsert (λ x. x.id == o.id) o db.orders }

-- BaseRepository.save of an order
unfoldable pub save_order : Order → M Void
save_order o = write (put_order o)

abbrev pub put_status : ℕ → OrderStatus → Db → Db
put_status id s db = record db {
  orders = modify_where (λ o. o.id == id) (λ o. record o { status = s }) db.orders;
}

-- BaseRepository.update with `{ status }`
unfoldable pub update_status : ℕ → OrderStatus → M Void
update_status id s = write (put_status id s)

-- `order.user.id`, which throws where the relation is empty
unfoldable pub user_id_of : Option User → M ℕ
user_id_of u = or_raise (map_option (λ (x : User). x.id) u) type_error

-- EntityMapper.map(order, OrderResponseDto)
abbrev pub to_response : LoadedOrder → OrderResponse
to_response l = record {
  id = l.order.id;
  user = l.user;
  status = l.order.status;
  total = l.order.total;
  created_at = l.order.created_at;
  items = l.items;
  payment = map_option to_payment_response l.payment;
  tracking_number = l.order.tracking_number;
  carrier = l.order.carrier;
  shipped_at = l.order.shipped_at;
  delivered_at = l.order.delivered_at;
}

-- EntityMapper.map(order, PublicOrderResponseDto), with the payment that the caller sets
abbrev pub to_public_response : LoadedOrder → Option PaymentResponse → OrderResponse
to_public_response l p = record (to_response l) { user = none; payment = p }
