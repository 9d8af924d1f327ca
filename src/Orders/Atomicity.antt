-- ===== src/Orders/Atomicity.antt =====
-- The operations of the order service stay within their transaction.
use dispatch_api.Prelude.{ℕ, Option, some, ◌≡◌, refl, arith}
use dispatch_api.Enums.{OrderStatus, NotificationEvent}
use dispatch_api.Entities.{Order, User, NotificationData}
use dispatch_api.Dtos.{ShipOrder}
use dispatch_api.Guard.Isolated.{Isolated, isolated_rules}
use dispatch_api.Guard.Atomic.{IsAtomic, lock_and_transaction-IsAtomic}
use dispatch_api.Guard.{lock_and_transaction}
use dispatch_api.World.{World, LockKey, Error, Result, ok, err, M}
use dispatch_api.Outbox
use dispatch_api.Orders.Requests.{OrderRequest as Q, handle, report}
use dispatch_api.Orders.Store.{get_order_or_throw, save_order, user_id_of}
use dispatch_api.Orders.Service.{
  update_lock, remove_lock, admin_update, admin_remove, ship, deliver, cancel, refund,
  mark_payment_as_succeeded, mark_payment_as_failed, dispatch_notification, require_transition,
  admin_update_work, admin_remove_work, ship_work, deliver_work, cancel_work, refund_work,
  mark_payment_as_succeeded_work, mark_payment_as_failed_work,
}

get_order_or_throw-Isolated : (id : ℕ) → Isolated (get_order_or_throw id)
unfolding get_order_or_throw
get_order_or_throw-Isolated id = search isolated_rules depth 9

save_order-Isolated : (o : Order) → Isolated (save_order o)
unfolding save_order
save_order-Isolated o = search isolated_rules depth 9

user_id_of-Isolated : (u : Option User) → Isolated (user_id_of u)
unfolding user_id_of
user_id_of-Isolated u = search isolated_rules depth 9

require_transition-Isolated : (s t : OrderStatus) → Isolated (require_transition s t)
unfolding require_transition
require_transition-Isolated s t = search isolated_rules depth 9

dispatch_notification-Isolated :
    (user_id : ℕ) (event : NotificationEvent) (extra : NotificationData)
    → Isolated (dispatch_notification user_id event extra)
unfolding dispatch_notification
dispatch_notification-Isolated user_id event extra = Outbox.add-Isolated _

ruleset parts = (
  isolated_rules, get_order_or_throw-Isolated, save_order-Isolated, user_id_of-Isolated,
  require_transition-Isolated, dispatch_notification-Isolated, Outbox.add-Isolated,
)

pub admin_update_work-Isolated :
    (id : ℕ) (status : OrderStatus) → Isolated (admin_update_work id status)
unfolding admin_update_work
admin_update_work-Isolated id status = search parts depth 14

pub admin_remove_work-Isolated : (id : ℕ) → Isolated (admin_remove_work id)
unfolding admin_remove_work
admin_remove_work-Isolated id = search parts depth 14

pub ship_work-Isolated : (id : ℕ) (dto : ShipOrder) → Isolated (ship_work id dto)
unfolding ship_work
ship_work-Isolated id dto = search parts depth 14

pub deliver_work-Isolated : (id : ℕ) → Isolated (deliver_work id)
unfolding deliver_work
deliver_work-Isolated id = search parts depth 14

pub cancel_work-Isolated : (id : ℕ) → Isolated (cancel_work id)
unfolding cancel_work
cancel_work-Isolated id = search parts depth 14

pub refund_work-Isolated : (id : ℕ) → Isolated (refund_work id)
unfolding refund_work
refund_work-Isolated id = search parts depth 14

pub mark_payment_as_succeeded_work-Isolated :
    (id : ℕ) → Isolated (mark_payment_as_succeeded_work id)
unfolding mark_payment_as_succeeded_work
mark_payment_as_succeeded_work-Isolated id = search parts depth 14

pub mark_payment_as_failed_work-Isolated : (id : ℕ) → Isolated (mark_payment_as_failed_work id)
unfolding mark_payment_as_failed_work
mark_payment_as_failed_work-Isolated id = search parts depth 14

-- A request leaves the locks and the outer transaction as they were, and a failed one the database.
record IsSafe (w : World) (o : Option Error) (w' : World) : Type 0 where
  same_tx : w'.tx ≡ w.tx
  same_held : w'.held ≡ w.held
  nothing : (e : Error) → o ≡ some e → w'.committed ≡ w.committed

report-IsSafe :
    {A : Type 0} (w : World) (r : Result A) (w' : World)
    → IsAtomic w r w'
    → let (o, w'') = report (r, w') in IsSafe w o w''
report-IsSafe w (ok a) w' s = record {
  same_tx = s.same_tx;
  same_held = s.same_held;
  nothing = λ e h. absurd (ground arith);
}
report-IsSafe w (err x) w' s = record {
  same_tx = s.same_tx;
  same_held = s.same_held;
  nothing = λ e h. s.nothing x refl;
}

guarded-IsSafe :
    {A : Type 0} (key : LockKey) (work : M A) (w : World)
    → Isolated work
    → let (o, w') = report (lock_and_transaction key work w) in IsSafe w o w'
guarded-IsSafe key work w k =
    let (r, w') = lock_and_transaction key work w in
    report-IsSafe w r w' (lock_and_transaction-IsAtomic key work w k)

handle-IsSafe : (q : Q) (w : World) → let (o, w') = handle q w in IsSafe w o w'
unfolding handle admin_update admin_remove ship deliver cancel refund mark_payment_as_succeeded
    mark_payment_as_failed
handle-IsSafe (Q.update id s) w =
    guarded-IsSafe (update_lock id) _ w (admin_update_work-Isolated id s)
handle-IsSafe (Q.remove id) w = guarded-IsSafe (remove_lock id) _ w (admin_remove_work-Isolated id)
handle-IsSafe (Q.ship id dto) w = guarded-IsSafe (update_lock id) _ w (ship_work-Isolated id dto)
handle-IsSafe (Q.deliver id) w = guarded-IsSafe (update_lock id) _ w (deliver_work-Isolated id)
handle-IsSafe (Q.cancel id) w = guarded-IsSafe (update_lock id) _ w (cancel_work-Isolated id)
handle-IsSafe (Q.refund id) w = guarded-IsSafe (update_lock id) _ w (refund_work-Isolated id)
handle-IsSafe (Q.payment_succeeded id) w =
    guarded-IsSafe (update_lock id) _ w (mark_payment_as_succeeded_work-Isolated id)
handle-IsSafe (Q.payment_failed id) w =
    guarded-IsSafe (update_lock id) _ w (mark_payment_as_failed_work-Isolated id)

-- A request that changes an order, or an event of the payment for it (every one but the creation of an
-- order), leaves the committed database as it was if it fails, whatever the reason.
pub handle_rolls_back :
    (q : Q) (w : World) {e : Error}
    → (handle q w).0 ≡ some e
    → (handle q w).1.committed ≡ w.committed
handle_rolls_back q w {e} h = (handle-IsSafe q w).nothing e h

-- A request gives back every lock that it has taken and closes its transaction, whether it
-- succeeds or fails.
pub handle_releases :
    (q : Q) (w : World) → ((handle q w).1.held ≡ w.held) × ((handle q w).1.tx ≡ w.tx)
handle_releases q w = let s = handle-IsSafe q w in (s.same_held, s.same_tx)
