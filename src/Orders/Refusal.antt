-- ===== src/Orders/Refusal.antt =====
-- What the guarded operations do when the policy does not allow the change.
use dispatch_api.Prelude.{◌≡◌, false, some, arith}
use dispatch_api.Enums.{OrderStatus}
use dispatch_api.Entities.{Order}
use dispatch_api.World.{World, bad_preconditions}
use dispatch_api.Guard.{is_held, lock_and_transaction}
use dispatch_api.Orders.Policy.{can_transition}
use dispatch_api.Orders.Store.{order_by_id, get_order_or_throw}
use dispatch_api.Orders.Service.{
  update_lock, require_transition, ship, ship_work, deliver, deliver_work, cancel, cancel_work,
  refund, refund_work,
}
use dispatch_api.Orders.Requests.{OrderRequest as Q, handle, target, order_of}

-- Where the policy does not allow the change of an order that is found and whose lock is free,
-- the request fails with the two statuses, and the whole state stays as it was: the database, the
-- outbox, the locks, the gateway and the cache.
pub handle_refuses :
    (q : Q) (t : OrderStatus) (w : World) (o : Order)
    → target q ≡ some t
    → order_by_id (order_of q) w.committed ≡ some o
    → can_transition o.status t ≡ false
    → is_held (update_lock (order_of q)) w.held ≡ false
    → handle q w ≡ (some (bad_preconditions t o.status), w)
unfolding handle lock_and_transaction get_order_or_throw require_transition ship ship_work deliver
    deliver_work cancel cancel_work refund refund_work
handle_refuses (Q.ship id dto) t w o e found refused free = ground arith
handle_refuses (Q.deliver id) t w o e found refused free = ground arith
handle_refuses (Q.cancel id) t w o e found refused free = ground arith
handle_refuses (Q.refund id) t w o e found refused free = ground arith
handle_refuses (Q.update id s) t w o e found refused free = absurd (ground arith)
handle_refuses (Q.remove id) t w o e found refused free = absurd (ground arith)
handle_refuses (Q.payment_succeeded id) t w o e found refused free = absurd (ground arith)
handle_refuses (Q.payment_failed id) t w o e found refused free = absurd (ground arith)
