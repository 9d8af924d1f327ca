-- ===== src/Payments/Refunds.antt =====
-- What a refund sends and writes: createRefund of src/modules/payments/payments.service.ts.
use dispatch_api.Prelude.{
  ℕ, ◌≡◌, Bool, Option, none, some, true, false, Bool-cases, Option-cases, inl, inr, [], ◌∷◌, ◌++◌,
  arith,
}
use dispatch_api.Entities.{Payment, Refund}
use dispatch_api.Dtos.{GatewayKey, RefundParams, StripeRefund, refunds_create}
use dispatch_api.World.{World, Result, ok, err, gateway_failed, unique_violation, view}
use dispatch_api.Payments.Stripe.{send, create_refund_payment}
use dispatch_api.Payments.Service.{payment_by_order, create_refund, refund_taken}

-- What comes back and what is written once the gateway has answered, by whether a row has its refund.
unfoldable pub RowOutcome : Bool → Refund → World → Result Refund → World → Type 0
RowOutcome true row w r w' = (r ≡ err unique_violation) × (view w' ≡ view w)
RowOutcome false row w r w' = (r ≡ ok row) × ((view w').refunds ≡ (view w).refunds ++ (row ∷ []))

abbrev refund_row : StripeRefund → Payment → ℕ → World → Refund
refund_row answer p amount w = record {
  id = w.next_id;
  payment_id = p.id;
  gateway_refund_id = answer.id;
  amount = amount;
}

-- What comes back and what is written, by the answer of the gateway.
unfoldable pub RefundOutcome :
    Option StripeRefund → Payment → ℕ → World → Result Refund → World → Type 0
RefundOutcome none p amount w r w' = (r ≡ err gateway_failed) × (view w' ≡ view w)
RefundOutcome (some answer) p amount w r w' =
    RowOutcome (refund_taken answer.id (view w)) (refund_row answer p amount w) w r w'

abbrev asked_for : Payment → ℕ → RefundParams
asked_for p amount = record { payment_intent = p.id; amount = amount }

answered_lem :
    (order_id amount : ℕ) (key : GatewayKey) (w : World) (p : Payment) (answer : StripeRefund)
    → payment_by_order order_id (view w) ≡ some p
    → w.env.create_stripe_refund w.gateway_log (asked_for p amount) ≡ some answer
    → let (r, w') = create_refund order_id amount key w in
      RowOutcome (refund_taken answer.id (view w)) (refund_row answer p amount w) w r w'
unfolding RowOutcome create_refund create_refund_payment send
answered_lem order_id amount key w p answer found given =
    elim (Bool-cases (refund_taken answer.id (view w))) [
      | inl old ↦ rw old (ground arith)
      | inr new ↦ rw new (ground arith)
    ]

-- The refund of an order with a payment asks the gateway once, with the amount and the key given, and names
-- the payment by the id of its row, not by the id that the gateway has given its payment intent. If the
-- gateway answers with a refund that no row has, the row of the refund is added and returned; if a row has it,
-- or if the gateway refuses, nothing is written.
pub create_refund_lem :
    (order_id amount : ℕ) (key : GatewayKey) (w : World) (p : Payment)
    → payment_by_order order_id (view w) ≡ some p
    → let asked : RefundParams = record { payment_intent = p.id; amount = amount } in
      let (r, w') = create_refund order_id amount key w in
      (w'.gateway_log ≡ refunds_create asked key ∷ w.gateway_log)
      × RefundOutcome (w.env.create_stripe_refund w.gateway_log asked) p amount w r w'
unfolding RefundOutcome create_refund create_refund_payment send
create_refund_lem order_id amount key w p found =
    elim (Option-cases (w.env.create_stripe_refund w.gateway_log (asked_for p amount))) [
      | inl refused ↦ (ground arith, rw refused (ground arith))
      | inr (answer, given) ↦
          (ground arith, rw given (answered_lem order_id amount key w p answer found given))
    ]

-- No order is changed.
pub create_refund-orders :
    (order_id amount : ℕ) (key : GatewayKey) (w : World)
    → (view (create_refund order_id amount key w).1).orders ≡ (view w).orders
unfolding create_refund create_refund_payment send
create_refund-orders order_id amount key w = ground arith
