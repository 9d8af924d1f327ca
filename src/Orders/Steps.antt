-- ===== src/Orders/Steps.antt =====
-- The steps that the operations on an order begin and end with, one equation or rule for each.
use dispatch_api.Prelude.{
  ℕ, ◌==◌, ◌≡◌, refl, ap, ◌∙◌, true, false, Option, none, some, upsert, arith, List,
}
use dispatch_api.Enums.{OrderStatus, NotificationEvent}
use dispatch_api.Entities.{Order, Db, JobBody, NotificationData, User}
use dispatch_api.World.{
  World, bad_preconditions, order_not_found, err, M, view, view-write, write_world, ◌>>=◌, ◌>>◌,
}
use dispatch_api.Guard.Tables.{Leaves, Leaves-write, leaves_rules}
use dispatch_api.Outbox
use dispatch_api.Orders.Policy.{can_transition}
use dispatch_api.Orders.Store.{
  LoadedOrder, order_by_id, load, get_order_or_throw, save_order, put_order, user_id_of,
}
use dispatch_api.Orders.Service.{require_transition, dispatch_notification}

abbrev pub orders_of : Db → List Order
orders_of db = db.orders

-- The rest of the order service leaves the table of orders alone.
schedule-Leaves : Leaves orders_of Outbox.schedule
unfolding Outbox.schedule
schedule-Leaves = record { at = λ w. refl }

pub add-Leaves : (body : JobBody) → Leaves orders_of (Outbox.add body)
unfolding Outbox.add
add-Leaves body = search (leaves_rules, Leaves-write, schedule-Leaves) depth 12

pub dispatch_notification-Leaves :
    (user_id : ℕ) (event : NotificationEvent) (extra : NotificationData)
    → Leaves orders_of (dispatch_notification user_id event extra)
unfolding dispatch_notification
dispatch_notification-Leaves user_id event extra = add-Leaves _

pub user_id_of-Leaves : (u : Option User) → Leaves orders_of (user_id_of u)
unfolding user_id_of
user_id_of-Leaves u = search leaves_rules

pub get_order_or_throw-Leaves : (id : ℕ) → Leaves orders_of (get_order_or_throw id)
unfolding get_order_or_throw
get_order_or_throw-Leaves id = search leaves_rules

pub require_transition-Leaves : (s t : OrderStatus) → Leaves orders_of (require_transition s t)
unfolding require_transition
require_transition-Leaves s t = search leaves_rules

pub save_then :
    {A : Type 0} (o : Order) (k : M A) (w : World)
    → Leaves orders_of k
    → (view ((save_order o >> k) w).1).orders ≡ upsert (λ x. x.id == o.id) o (view w).orders
unfolding save_order
save_then o k w h = h.at (write_world (put_order o) w) ∙ ap orders_of (view-write (put_order o) w)

pub get_then_none :
    {A : Type 0} (id : ℕ) (k : LoadedOrder → M A) (w : World)
    → order_by_id id (view w) ≡ none
    → (get_order_or_throw id >>= k) w ≡ (err order_not_found, w)
unfolding get_order_or_throw
get_then_none id k w e = ground (arith, e)

pub get_then_some :
    {A : Type 0} (id : ℕ) (o : Order) (k : LoadedOrder → M A) (w : World)
    → order_by_id id (view w) ≡ some o
    → (get_order_or_throw id >>= k) w ≡ k (load (view w) o) w
unfolding get_order_or_throw
get_then_some id o k w e = ground (arith, e)

pub require_then_false :
    {A : Type 0} (s t : OrderStatus) (k : M A) (w : World)
    → can_transition s t ≡ false
    → (require_transition s t >> k) w ≡ (err (bad_preconditions t s), w)
unfolding require_transition
require_then_false s t k w e = rw e

pub require_then_true :
    {A : Type 0} (s t : OrderStatus) (k : M A) (w : World)
    → can_transition s t ≡ true
    → (require_transition s t >> k) w ≡ k w
unfolding require_transition
require_then_true s t k w e = rw e
