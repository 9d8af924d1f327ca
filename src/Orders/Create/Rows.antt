-- ===== src/Orders/Create/Rows.antt =====
-- What createOrderWithItems of src/modules/orders/orders.service.ts writes.
use dispatch_api.Prelude.{ℕ, ◌+◌, ◌≡◌, none, some, List, [], ◌∷◌, ◌++◌, length, arith}
use dispatch_api.Enums.{pending}
use dispatch_api.Entities.{Order, OrderItem, Item, Db}
use dispatch_api.Dtos.{CreateOrderItem}
use dispatch_api.World.{World, ok, write_world}
use dispatch_api.Orders.Create.{line_row, create_rows, order_sum, create_order_with_items}

-- The rows of the lines, with ids from `start` on.
abbrev pub rows_from : ℕ → ℕ → List CreateOrderItem → List OrderItem
rows_from start order_id [] = []
rows_from start order_id (l ∷ ls) = line_row order_id start l ∷ rows_from (start + 1) order_id ls

create_rows_lem :
    (order_id : ℕ) (ls : List CreateOrderItem) (w : World)
    → create_rows order_id ls w
      ≡ (ok (rows_from w.next_id order_id ls), record w { next_id = w.next_id + length ls })
unfolding create_rows
create_rows_lem order_id [] w = ground arith
create_rows_lem order_id (l ∷ ls) w =
    ground (arith, create_rows_lem order_id ls (record w { next_id = w.next_id + 1 }))

-- The row of a new order.
abbrev pub new_order : ℕ → ℕ → ℕ → ℕ → Order
new_order id now user_id total = record {
  id = id;
  created_at = now;
  deleted_at = none;
  user_id = user_id;
  status = pending;
  total = total;
  payment_id = none;
  tracking_number = none;
  carrier = none;
  shipped_at = none;
  delivered_at = none;
}

-- The writes of a new order and its lines.
abbrev pub add_order : Order → List OrderItem → Db → Db
add_order o rows db = record db {
  orders = db.orders ++ (o ∷ []);
  order_items = db.order_items ++ rows;
}

pub create_order_with_items_lem :
    (ls : List CreateOrderItem) (user_id : ℕ) (catalog : List Item) (w : World) (total : ℕ)
    → order_sum catalog ls 0 ≡ some total
    → let o = new_order w.next_id w.now user_id total in
      create_order_with_items ls user_id catalog w ≡ (
        ok o,
        write_world
            (add_order o (rows_from (w.next_id + 1) w.next_id ls))
            (record w { next_id = w.next_id + 1 + length ls }),
      )
unfolding create_order_with_items
create_order_with_items_lem ls user_id catalog w total sum = ground (
  arith,
  create_rows_lem w.next_id ls (
      write_world
        (λ db. record db { orders = db.orders ++ (new_order w.next_id w.now user_id total ∷ []) })
        (record w { next_id = w.next_id + 1 })),
)
