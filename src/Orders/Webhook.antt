-- ===== src/Orders/Webhook.antt =====
-- What is done to an order when its payment is settled: markPaymentAsSucceeded and markPaymentAsFailed of
-- src/modules/orders/orders.service.ts.
use dispatch_api.Orders.Policy.{can_transition}
use dispatch_api.Prelude.{
  refl, ◌==◌, ℕ, ◌≡◌, false, some, find-upsert, key-find, arith, [], ◌∷◌, ◌++◌,
}
use dispatch_api.Enums.{
  OrderStatus, status_code, pending, paid, processed, shipped, delivered, canceled, refunded,
}
use dispatch_api.Entities.{Order, process_order, cancel_order}
use dispatch_api.World.{World, ok}
use dispatch_api.Guard.{is_held, lock, transaction, lock_and_transaction}
use dispatch_api.Outbox
use dispatch_api.Orders.Store.{
  order_by_id, load, find_order, get_order_or_throw, save_order, to_response,
}
use dispatch_api.Orders.Service.{
  mark_payment_as_succeeded, mark_payment_as_succeeded_work, mark_payment_as_failed,
  mark_payment_as_failed_work, update_lock,
}
use dispatch_api.Outbox.Waiting.{jobs_of, jobs-push}

only_from_pending :
    (s : OrderStatus) → can_transition s paid ≡ (status_code s == status_code pending)
unfolding can_transition
only_from_pending pending = refl
only_from_pending paid = refl
only_from_pending processed = refl
only_from_pending shipped = refl
only_from_pending delivered = refl
only_from_pending canceled = refl
only_from_pending refunded = refl

-- markPaymentAsSucceeded, which no route and no event calls so far, makes an order whose lock is free
-- PAID from whatever status it has, and queues its processing, while the policy lets only an order
-- that is PENDING become PAID.
pub succeeded_from_any_status :
    (id : ℕ) (w : World) (o : Order)
    → order_by_id id w.committed ≡ some o
    → is_held (update_lock id) w.held ≡ false
    → let new : Order = record o { status = paid } in
      let (r, w') = mark_payment_as_succeeded id w in
      (r ≡ ok (to_response (record (load w.committed o) { order = new })))
      × (order_by_id id w'.committed ≡ some new)
      × (jobs_of w'.committed.outbox ≡ jobs_of w.committed.outbox ++ (process_order id ∷ []))
      × (can_transition o.status paid ≡ (status_code o.status == status_code pending))
unfolding can_transition mark_payment_as_succeeded mark_payment_as_succeeded_work
    lock_and_transaction lock transaction get_order_or_throw find_order save_order Outbox.add
succeeded_from_any_status id w o found free = (
  ground arith,
  ground (
    arith,
    find-upsert (λ (x : Order). x.id) (record o { status = paid }) w.committed.orders id,
    key-find (λ (x : Order). x.id) w.committed.orders id {r = o},
  ),
  grind (arith, jobs-push),
  only_from_pending o.status,
)

-- markPaymentAsFailed, which has no caller either, for an order whose lock is free leaves the orders as they are and queues the
-- cancellation of this one.
pub failed_queues_cancel :
    (id : ℕ) (w : World) (o : Order)
    → order_by_id id w.committed ≡ some o
    → is_held (update_lock id) w.held ≡ false
    → let (r, w') = mark_payment_as_failed id w in
      (r ≡ ok (to_response (load w.committed o)))
      × (w'.committed.orders ≡ w.committed.orders)
      × (jobs_of w'.committed.outbox ≡ jobs_of w.committed.outbox ++ (cancel_order id ∷ []))
unfolding mark_payment_as_failed mark_payment_as_failed_work lock_and_transaction lock transaction
    get_order_or_throw find_order Outbox.add
failed_queues_cancel id w o found free = (
  ground arith,
  ground arith,
  grind (arith, jobs-push, key-find (λ (x : Order). x.id) w.committed.orders id {r = o}),
)
