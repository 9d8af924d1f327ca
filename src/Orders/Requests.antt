-- ===== src/Orders/Requests.antt =====
-- src/modules/orders/orders-admin.controller.ts and the two webhook operations: the requests that
-- change an order, each handed to the service.
use dispatch_api.Prelude.{ℕ, Option, none, some}
use dispatch_api.Enums.{OrderStatus, shipped, delivered, canceled, refunded}
use dispatch_api.Dtos.{ShipOrder}
use dispatch_api.World.{World, Error, Result, ok, err}
use dispatch_api.Orders.Service

pub data OrderRequest : Type 0 where
  update : ℕ → OrderStatus → OrderRequest
  remove : ℕ → OrderRequest
  ship : ℕ → ShipOrder → OrderRequest
  deliver : ℕ → OrderRequest
  cancel : ℕ → OrderRequest
  refund : ℕ → OrderRequest
  payment_succeeded : ℕ → OrderRequest
  payment_failed : ℕ → OrderRequest

-- What the caller sees of a failure, and the state after the request.
abbrev pub report : {A : Type 0} → Result A × World → Option Error × World
report (ok _, w) = (none, w)
report (err e, w) = (some e, w)

unfoldable pub handle : OrderRequest → World → Option Error × World
handle (update id status) w = report (Service.admin_update id status w)
handle (remove id) w = report (Service.admin_remove id w)
handle (ship id dto) w = report (Service.ship id dto w)
handle (deliver id) w = report (Service.deliver id w)
handle (cancel id) w = report (Service.cancel id w)
handle (refund id) w = report (Service.refund id w)
handle (payment_succeeded id) w = report (Service.mark_payment_as_succeeded id w)
handle (payment_failed id) w = report (Service.mark_payment_as_failed id w)

abbrev pub order_of : OrderRequest → ℕ
order_of (update id _) = id
order_of (remove id) = id
order_of (ship id _) = id
order_of (deliver id) = id
order_of (cancel id) = id
order_of (refund id) = id
order_of (payment_succeeded id) = id
order_of (payment_failed id) = id

-- The status that the code asks the policy for, where it does.
abbrev pub target : OrderRequest → Option OrderStatus
target (ship _ _) = some shipped
target (deliver _) = some delivered
target (cancel _) = some canceled
target (refund _) = some refunded
target _ = none
