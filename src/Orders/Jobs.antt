-- ===== src/Orders/Jobs.antt =====
-- src/modules/orders/providers/strategies: what the workers of the order queue do.
pub mod Once
pub mod Inventory
pub mod Cancel
use dispatch_api.Prelude.{ℕ, Option, none, some, List, map, if◌then◌else◌}
use dispatch_api.Enums.{
  OrderStatus, processed, canceled, refunded, NotificationEvent, order_processed, order_canceled,
  order_refunded, order_failed,
}
use dispatch_api.Entities.{OrderItem, Item, JobBody, no_data, refund_order, cancel_order}
use dispatch_api.Dtos.{refund_order_key}
use dispatch_api.World.{M, Void, pure, for_each, catch, ◌>>=◌, ◌>>◌}
use dispatch_api.Guard.{lock, transaction}
use dispatch_api.Outbox
use dispatch_api.Items.{find_item, find_many_by_ids, increment_item_stock}
use dispatch_api.Payments.{create_refund}
use dispatch_api.Orders.Policy.{can_transition}
use dispatch_api.Orders.Store.{LoadedOrder, find_order, update_status, user_id_of}
use dispatch_api.Orders.Service.{update_lock, dispatch_notification}

-- BaseOrderJobStrategy.updateOrderWithLock, with a status
unfoldable pub update_order_with_lock : ℕ → OrderStatus → M Void
update_order_with_lock id status = lock (update_lock id) (update_status id status)

abbrev pub validated : OrderStatus → Option LoadedOrder → Option LoadedOrder
validated target none = none
validated target (some l) = if can_transition l.order.status target then some l else none

-- BaseOrderJobStrategy.validateAndRetrieveOrder
unfoldable pub validate_and_retrieve_order : ℕ → OrderStatus → M (Option LoadedOrder)
unfolding find_order
validate_and_retrieve_order id target = do found ← find_order id; pure (validated target found)

-- `if (!order) return;`
abbrev pub when_found : (LoadedOrder → M Void) → Option LoadedOrder → M Void
when_found work none = pure tt
when_found work (some l) = work l

-- `finish` of the three strategies: the new status, and a message to the user
unfoldable pub finish : LoadedOrder → OrderStatus → NotificationEvent → M Void
finish l status event = do
  update_order_with_lock l.order.id status
  user_id ← user_id_of l.user
  dispatch_notification user_id event no_data

-- ProcessOrderJobStrategy.execute
unfoldable pub process_execute : ℕ → M Void
process_execute order_id = transaction (do
  found ← validate_and_retrieve_order order_id processed
  when_found (λ l. finish l processed order_processed) found)

-- A payment that was captured is refunded; else the order is only cancelled.
abbrev pub compensation_job : OrderStatus → ℕ → JobBody
compensation_job status order_id =
    if can_transition status refunded then refund_order order_id else cancel_order order_id

-- compensationLogic
unfoldable pub compensation_logic : ℕ → M Void
compensation_logic order_id = do
  found ← find_order order_id
  when_found
      (λ l. do
        Outbox.add (compensation_job l.order.status order_id)
        user_id ← user_id_of l.user
        dispatch_notification user_id order_failed no_data)
      found

-- ProcessOrderJobStrategy.executeAfterFail: an error of the compensation is only logged.
unfoldable pub process_execute_after_fail : ℕ → M Void
process_execute_after_fail order_id =
    transaction (catch (compensation_logic order_id) (λ _. pure tt))

-- releaseInventory: a line whose item is no longer in the catalogue is passed over.
abbrev pub release_line : List Item → OrderItem → M Void
release_line catalog line = elim (find_item line.item_id catalog) [
  | none ↦ pure tt
  | some item ↦ increment_item_stock item line.quantity
]

unfoldable pub release_inventory : LoadedOrder → M Void
unfolding find_many_by_ids
release_inventory l = do
  catalog ← find_many_by_ids (map (λ (i : OrderItem). i.item_id) l.items)
  for_each (release_line catalog) l.items

-- CancelOrderJobStrategy.finish
abbrev pub cancel_finish : LoadedOrder → M Void
cancel_finish l = finish l canceled order_canceled

-- CancelOrderJobStrategy.execute
unfoldable pub cancel_execute : ℕ → M Void
cancel_execute order_id = transaction (do
  found ← validate_and_retrieve_order order_id canceled
  when_found (λ l. do release_inventory l; cancel_finish l) found)

-- CancelOrderJobStrategy.executeAfterFail: the failure is only logged.
unfoldable pub cancel_execute_after_fail : ℕ → M Void
cancel_execute_after_fail order_id = transaction (pure tt)

-- RefundOrderJobStrategy.refundPayment
abbrev pub refund_payment : LoadedOrder → M Void
refund_payment l = create_refund l.order.id l.order.total (refund_order_key l.order.id) >> pure tt

-- RefundOrderJobStrategy.finish
abbrev pub refund_finish : LoadedOrder → M Void
refund_finish l = finish l refunded order_refunded

-- RefundOrderJobStrategy.execute
unfoldable pub refund_execute : ℕ → M Void
refund_execute order_id = transaction (do
  found ← validate_and_retrieve_order order_id refunded
  when_found (λ l. do refund_payment l; refund_finish l) found)

-- RefundOrderJobStrategy.executeAfterFail: the failure is only logged.
unfoldable pub refund_execute_after_fail : ℕ → M Void
refund_execute_after_fail order_id = transaction (pure tt)

-- The jobs and the status that each leads to (order-job-handler.factory.ts).
pub data OrderJob : Type 0 where
  process cancel refund : OrderJob

unfoldable pub execute : OrderJob → ℕ → M Void
execute process = process_execute
execute cancel = cancel_execute
execute refund = refund_execute

abbrev pub goal : OrderJob → OrderStatus
goal process = processed
goal cancel = canceled
goal refund = refunded
