-- ===== src/Payments/Stripe.antt =====
-- src/modules/payments/gateways/stripe/providers/stripe.adapter.ts. Each call is logged with what
-- is sent, and the answer is the environment's; a call that throws gives an error.
use dispatch_api.Prelude.{ℕ, Option, ◌∷◌}
use dispatch_api.Dtos.{
  GatewayCall, GatewayKey, PaymentIntentParams, RefundParams, CustomerParams, PaymentIntent,
  StripeRefund, payment_intents_create, refunds_create, customers_create, customers_update,
  customers_del,
}
use dispatch_api.World.{
  World, Error, gateway_failed, create_customer_failed, update_customer_failed, M, gets, or_raise,
  modify, ◌>>=◌, ◌>>◌,
}

-- The answer to a request, given those sent before it; then the request is logged.
unfoldable pub send : {A : Type 0} → (World → Option A) → GatewayCall → Error → M A
send answer call error = do
  result ← gets answer
  modify (λ w. record w { gateway_log = call ∷ w.gateway_log })
  or_raise result error

-- createPayment, with mapToStripePaymentIntentCreateParams
unfoldable pub create_payment_intent : PaymentIntentParams → GatewayKey → M PaymentIntent
unfolding send
create_payment_intent params key =
    send (λ w. w.env.create_payment_intent w.gateway_log params) (payment_intents_create params key)
      gateway_failed

-- createRefundPayment, with mapToRefundCreateParams
unfoldable pub create_refund_payment : ℕ → ℕ → GatewayKey → M StripeRefund
unfolding send
create_refund_payment payment_id amount key =
    let params : RefundParams = record { payment_intent = payment_id; amount = amount } in
    send (λ w. w.env.create_stripe_refund w.gateway_log params) (refunds_create params key)
      gateway_failed

-- createCustomer
unfoldable pub create_stripe_customer : CustomerParams → GatewayKey → M ℕ
unfolding send
create_stripe_customer params key =
    send (λ w. w.env.create_stripe_customer w.gateway_log params) (customers_create params key)
      create_customer_failed

-- updateCustomer
unfoldable pub update_stripe_customer : ℕ → CustomerParams → M ℕ
unfolding send
update_stripe_customer id params =
    send (λ w. w.env.update_stripe_customer w.gateway_log id params) (customers_update id params)
      update_customer_failed

-- deleteCustomer
unfoldable pub delete_stripe_customer : ℕ → M ℕ
unfolding send
delete_stripe_customer id =
    send (λ w. w.env.del_stripe_customer w.gateway_log id) (customers_del id) gateway_failed
