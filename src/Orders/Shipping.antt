-- ===== src/Orders/Shipping.antt =====
-- What shipping does when it is allowed, and what the guarded operations do when it is not.
use dispatch_api.Prelude.{ℕ, ◌≡◌, false, some, find-upsert, key-find, arith, [], ◌∷◌, ◌++◌}
use dispatch_api.Enums.{processed, shipped, push, order_shipped}
use dispatch_api.Entities.{Order, User, notify_user, no_data}
use dispatch_api.Dtos.{ShipOrder}
use dispatch_api.World.{World, ok}
use dispatch_api.Guard.{is_held, lock_and_transaction}
use dispatch_api.Outbox
use dispatch_api.Outbox.Waiting.{jobs_of, jobs-push}
use dispatch_api.Orders.Policy.{can_transition}
use dispatch_api.Orders.Store.{
  order_by_id, user_by_id, load, to_response, get_order_or_throw, save_order, user_id_of,
}
use dispatch_api.Orders.Service.{
  ship, ship_work, update_lock, or_keep, require_transition, dispatch_notification,
}

-- The row of a shipped order.
abbrev pub shipped_order : ShipOrder → ℕ → Order → Order
shipped_order dto now o = record o {
  status = shipped;
  shipped_at = some now;
  tracking_number = or_keep dto.tracking_number o.tracking_number;
  carrier = or_keep dto.carrier o.carrier;
}

-- A processed order whose customer still exists is shipped, if nobody else holds its lock: the row
-- has the status, the time and the tracking data that were given, the caller gets the new order, the
-- customer is told through the outbox, and the other rows of the outbox stay.
pub ship_succeeds :
    (id : ℕ) (dto : ShipOrder) (w : World) (o : Order) (u : User)
    → order_by_id id w.committed ≡ some o
    → o.status ≡ processed
    → user_by_id o.user_id w.committed ≡ some u
    → is_held (update_lock id) w.held ≡ false
    → let new = shipped_order dto w.now o in
      let (r, w') = ship id dto w in
      (r ≡ ok (to_response (record (load w.committed o) { order = new })))
      × (order_by_id id w'.committed ≡ some new)
      × (jobs_of w'.committed.outbox
          ≡ jobs_of w.committed.outbox ++ (notify_user u.id push order_shipped no_data ∷ []))
unfolding ship lock_and_transaction ship_work get_order_or_throw require_transition can_transition
    save_order user_id_of dispatch_notification Outbox.add
ship_succeeds id dto w o u found status user free = (
  ground arith,
  ground (
    arith,
    find-upsert (λ (x : Order). x.id) (shipped_order dto w.now o) w.committed.orders id,
    key-find (λ (x : Order). x.id) w.committed.orders id {r = o},
  ),
  grind (arith, jobs-push),
)
