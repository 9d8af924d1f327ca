-- ===== src/Orders/Service.antt =====
-- src/modules/orders/orders.service.ts: the admin operations and the webhook operations. The
-- controllers (orders-admin.controller.ts) call them one for one.
use dispatch_api.Prelude.{ℕ, Option, none, some, not, ◌==◌}
use dispatch_api.Enums.{
  OrderStatus, paid, shipped, delivered, canceled, refunded, NotificationEvent, push,
  order_status_changed, order_shipped, order_delivered,
}
use dispatch_api.Entities.{
  Order, process_order, cancel_order, refund_order, notify_user, NotificationData, no_data,
  new_status,
}
use dispatch_api.Dtos.{OrderResponse, ShipOrder}
use dispatch_api.World.{
  LockKey, order_update, order_remove, bad_preconditions, order_access_denied, type_error, M, Void,
  pure, gets, or_raise, raise_if, ◌>>=◌, ◌>>◌,
}
use dispatch_api.Guard.{lock_and_transaction}
use dispatch_api.Outbox
use dispatch_api.Payments.{find_one_payment}
use dispatch_api.Orders.Policy.{can_transition}
use dispatch_api.Orders.Store.{
  get_order_or_throw, save_order, user_id_of, to_response, to_public_response,
}

abbrev pub update_lock : ℕ → LockKey
update_lock id = record { space = order_update; id = id }

abbrev pub remove_lock : ℕ → LockKey
remove_lock id = record { space = order_remove; id = id }

-- dispatchNotification, always of the type PUSH
unfoldable pub dispatch_notification : ℕ → NotificationEvent → NotificationData → M Void
dispatch_notification user_id event extra = Outbox.add (notify_user user_id push event extra)

-- The test and the exception that the guarded operations share.
unfoldable pub require_transition : OrderStatus → OrderStatus → M Void
require_transition current target =
    raise_if (not (can_transition current target)) (bad_preconditions target current)

abbrev pub or_keep : {A : Type 0} → Option A → Option A → Option A
or_keep none old = old
or_keep (some a) old = some a

-- publicFindOne
unfoldable pub public_find_one : ℕ → ℕ → M OrderResponse
public_find_one id request_user_id = do
  l ← get_order_or_throw id
  raise_if (not (l.order.user_id == request_user_id)) order_access_denied
  p ← or_raise l.payment type_error
  payment ← find_one_payment p.id
  pure (to_public_response l payment)

-- _adminUpdate: the new status is assigned as it comes.
unfoldable pub admin_update_work : ℕ → OrderStatus → M OrderResponse
admin_update_work id status = do
  l ← get_order_or_throw id
  let o : Order = record l.order { status = status }
  save_order o
  user_id ← user_id_of l.user
  dispatch_notification user_id order_status_changed (new_status o.status)
  pure (to_response (record l { order = o }))

unfoldable pub admin_update : ℕ → OrderStatus → M OrderResponse
admin_update id status = lock_and_transaction (update_lock id) (admin_update_work id status)

-- _adminRemove
unfoldable pub admin_remove_work : ℕ → M Void
admin_remove_work id = do
  l ← get_order_or_throw id
  now ← gets (λ w. w.now)
  save_order (record l.order { deleted_at = some now })

unfoldable pub admin_remove : ℕ → M Void
admin_remove id = lock_and_transaction (remove_lock id) (admin_remove_work id)

-- _ship
unfoldable pub ship_work : ℕ → ShipOrder → M OrderResponse
ship_work id dto = do
  l ← get_order_or_throw id
  require_transition l.order.status shipped
  now ← gets (λ w. w.now)
  let o : Order = record l.order {
    status = shipped;
    shipped_at = some now;
    tracking_number = or_keep dto.tracking_number l.order.tracking_number;
    carrier = or_keep dto.carrier l.order.carrier;
  }
  save_order o
  user_id ← user_id_of l.user
  dispatch_notification user_id order_shipped no_data
  pure (to_response (record l { order = o }))

unfoldable pub ship : ℕ → ShipOrder → M OrderResponse
ship id dto = lock_and_transaction (update_lock id) (ship_work id dto)

-- _deliver
unfoldable pub deliver_work : ℕ → M OrderResponse
deliver_work id = do
  l ← get_order_or_throw id
  require_transition l.order.status delivered
  now ← gets (λ w. w.now)
  let o : Order = record l.order { status = delivered; delivered_at = some now }
  save_order o
  user_id ← user_id_of l.user
  dispatch_notification user_id order_delivered no_data
  pure (to_response (record l { order = o }))

unfoldable pub deliver : ℕ → M OrderResponse
deliver id = lock_and_transaction (update_lock id) (deliver_work id)

-- _cancel
unfoldable pub cancel_work : ℕ → M Void
cancel_work id = do
  l ← get_order_or_throw id
  require_transition l.order.status canceled
  Outbox.add (cancel_order id)

unfoldable pub cancel : ℕ → M Void
cancel id = lock_and_transaction (update_lock id) (cancel_work id)

-- _refund
unfoldable pub refund_work : ℕ → M Void
refund_work id = do
  l ← get_order_or_throw id
  require_transition l.order.status refunded
  Outbox.add (refund_order id)

unfoldable pub refund : ℕ → M Void
refund id = lock_and_transaction (update_lock id) (refund_work id)

-- _markPaymentAsSucceeded: there is no test of the status that the order has.
unfoldable pub mark_payment_as_succeeded_work : ℕ → M OrderResponse
mark_payment_as_succeeded_work order_id = do
  l ← get_order_or_throw order_id
  let o : Order = record l.order { status = paid }
  save_order o
  Outbox.add (process_order order_id)
  pure (to_response (record l { order = o }))

unfoldable pub mark_payment_as_succeeded : ℕ → M OrderResponse
mark_payment_as_succeeded order_id =
    lock_and_transaction (update_lock order_id) (mark_payment_as_succeeded_work order_id)

-- _markPaymentAsFailed
unfoldable pub mark_payment_as_failed_work : ℕ → M OrderResponse
mark_payment_as_failed_work order_id = do
  l ← get_order_or_throw order_id
  Outbox.add (cancel_order l.order.id)
  pure (to_response l)

unfoldable pub mark_payment_as_failed : ℕ → M OrderResponse
mark_payment_as_failed order_id =
    lock_and_transaction (update_lock order_id) (mark_payment_as_failed_work order_id)
