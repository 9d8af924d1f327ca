-- ===== src/Payments/Rows.antt =====
-- What the calls of src/modules/payments/payments.service.ts that send a request do to the state.
use dispatch_api.Prelude.{ℕ, ◌+◌, ◌==◌, ◌≡◌, true, false, none, some, exists, [], ◌∷◌, ◌++◌, arith}
use dispatch_api.Entities.{Payment, Customer, Db}
use dispatch_api.Dtos.{
  PaymentIntentParams, PaymentIntent, CustomerParams, GatewayKey, payment_intents_create,
  customers_create,
}
use dispatch_api.World.{World, ok, err, gateway_failed, foreign_key_violation, view, write_world}
use dispatch_api.Payments.Stripe.{send, create_payment_intent, create_stripe_customer}
use dispatch_api.Payments.Service.{
  create_payment, create_customer, customer_taken, payment_taken, to_payment_response,
}

abbrev pub payment_row : ℕ → ℕ → PaymentIntent → World → Payment
payment_row order_id user_id i w = record {
  id = w.next_id;
  created_at = w.now;
  deleted_at = none;
  order_id = order_id;
  user_id = user_id;
  stripe_payment_intent_id = i.id;
  stripe_client_secret = i.client_secret;
  status = i.status;
}

abbrev pub push_payment : Payment → Db → Db
push_payment p db = record db { payments = db.payments ++ (p ∷ []) }

-- The log with the request for a payment.
abbrev pub charged : PaymentIntentParams → GatewayKey → World → World
charged params key w = record w { gateway_log = payment_intents_create params key ∷ w.gateway_log }

pub create_payment_lem :
    (order_id user_id : ℕ) (params : PaymentIntentParams) (key : GatewayKey) (w : World)
    (i : PaymentIntent)
    → w.env.create_payment_intent w.gateway_log params ≡ some i
    → payment_taken order_id i.id (view w) ≡ false
    → let p = payment_row order_id user_id i w in
      create_payment order_id user_id params key w ≡ (
        ok (to_payment_response p),
        write_world (push_payment p) (record (charged params key w) { next_id = w.next_id + 1 }),
      )
unfolding create_payment create_payment_intent send
create_payment_lem order_id user_id params key w i answered new = ground arith

pub create_payment_fails :
    (order_id user_id : ℕ) (params : PaymentIntentParams) (key : GatewayKey) (w : World)
    → w.env.create_payment_intent w.gateway_log params ≡ none
    → create_payment order_id user_id params key w ≡ (err gateway_failed, charged params key w)
unfolding create_payment create_payment_intent send
create_payment_fails order_id user_id params key w refused = ground arith

abbrev pub customer_row : ℕ → ℕ → CustomerParams → World → Customer
customer_row gateway_id user_id params w = record {
  id = w.next_id;
  deleted_at = none;
  gateway_customer_id = gateway_id;
  user_id = user_id;
  email = params.email;
  name = params.name;
}

abbrev pub push_customer : Customer → Db → Db
push_customer c db = record db { customers = db.customers ++ (c ∷ []) }

pub create_customer_lem :
    (user_id : ℕ) (params : CustomerParams) (key : GatewayKey) (w : World) (gateway_id : ℕ)
    → w.env.create_stripe_customer w.gateway_log params ≡ some gateway_id
    → customer_taken user_id gateway_id (view w) ≡ false
    → exists (λ u. u.id == user_id) (view w).users ≡ true
    → let c = customer_row gateway_id user_id params w in
      create_customer user_id params key w ≡ (
        ok c,
        write_world (push_customer c) (record w {
          gateway_log = customers_create params key ∷ w.gateway_log;
          next_id = w.next_id + 1;
        }),
      )
unfolding create_customer create_stripe_customer send
create_customer_lem user_id params key w gateway_id made new here = ground arith

pub create_customer_unknown :
    (user_id : ℕ) (params : CustomerParams) (key : GatewayKey) (w : World) (gateway_id : ℕ)
    → w.env.create_stripe_customer w.gateway_log params ≡ some gateway_id
    → customer_taken user_id gateway_id (view w) ≡ false
    → exists (λ u. u.id == user_id) (view w).users ≡ false
    → create_customer user_id params key w ≡ (
      err foreign_key_violation,
      record w {
        gateway_log = customers_create params key ∷ w.gateway_log;
        next_id = w.next_id + 1;
      },
    )
unfolding create_customer create_stripe_customer send
create_customer_unknown user_id params key w gateway_id made new gone = ground arith
