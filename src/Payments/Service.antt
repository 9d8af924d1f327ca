-- ===== src/Payments/Service.antt =====
-- src/modules/payments/payments.service.ts
use dispatch_api.Prelude.{
  ℕ, Bool, ◌&&◌, ◌||◌, ◌==◌, not, Option, none, some, [], ◌∷◌, ◌++◌, find, exists, modify_where,
  map_option,
}
use dispatch_api.Entities.{Payment, Refund, Customer, Db, is_live, only_live}
use dispatch_api.Dtos.{PaymentResponse, GatewayKey, PaymentIntentParams, CustomerParams}
use dispatch_api.World.{
  payment_not_found, customer_not_found, foreign_key_violation, unique_violation, M, Void, raise_if,
  pure, query, or_raise, write, fresh, gets, ◌>>=◌, ◌>>◌,
}
use dispatch_api.Payments.Stripe.{
  create_payment_intent, create_refund_payment, create_stripe_customer, update_stripe_customer,
  delete_stripe_customer,
}

-- EntityMapper.map(payment, PaymentResponseDto)
abbrev pub to_payment_response : Payment → PaymentResponse
to_payment_response p = record {
  id = p.id;
  order_id = p.order_id;
  user_id = p.user_id;
  stripe_payment_intent_id = p.stripe_payment_intent_id;
  stripe_client_secret = p.stripe_client_secret;
  status = p.status;
}

-- The unique indexes of the payments, on the order and on the payment intent.
abbrev pub payment_taken : ℕ → ℕ → Db → Bool
payment_taken order_id intent_id db =
    exists (λ p. p.order_id == order_id || p.stripe_payment_intent_id == intent_id) db.payments

-- createPayment
unfoldable pub create_payment : ℕ → ℕ → PaymentIntentParams → GatewayKey → M PaymentResponse
unfolding create_payment_intent
create_payment order_id user_id params key = do
  intent ← create_payment_intent params key
  id ← fresh
  now ← gets (λ w. w.now)
  let payment : Payment = record {
    id = id;
    created_at = now;
    deleted_at = none;
    order_id = order_id;
    user_id = user_id;
    stripe_payment_intent_id = intent.id;
    stripe_client_secret = intent.client_secret;
    status = intent.status;
  }
  taken ← query (payment_taken order_id intent.id)
  raise_if taken unique_violation
  write (λ db. record db { payments = db.payments ++ (payment ∷ []) })
  pure (to_payment_response payment)

abbrev pub payment_by_id : ℕ → Db → Option Payment
payment_by_id id db = only_live (λ (p : Payment). p.deleted_at) (find (λ p. p.id == id) db.payments)

abbrev pub payment_by_order : ℕ → Db → Option Payment
payment_by_order order_id db =
    find (λ p. is_live p.deleted_at && p.order_id == order_id) db.payments

-- findOnePayment
unfoldable pub find_one_payment : ℕ → M (Option PaymentResponse)
find_one_payment id = query (λ db. map_option to_payment_response (payment_by_id id db))

-- The unique index of the refunds, on the refund of the gateway.
abbrev pub refund_taken : ℕ → Db → Bool
refund_taken gateway_id db = exists (λ (r : Refund). r.gateway_refund_id == gateway_id) db.refunds

-- createRefund: what goes to the gateway as `payment_intent` is the id of the payment row.
unfoldable pub create_refund : ℕ → ℕ → GatewayKey → M Refund
unfolding create_refund_payment
create_refund order_id amount key = do
  found ← query (payment_by_order order_id)
  payment ← or_raise found payment_not_found
  answer ← create_refund_payment payment.id amount key
  id ← fresh
  let refund : Refund = record {
    id = id;
    payment_id = payment.id;
    gateway_refund_id = answer.id;
    amount = amount;
  }
  taken ← query (refund_taken answer.id)
  raise_if taken unique_violation
  write (λ db. record db { refunds = db.refunds ++ (refund ∷ []) })
  pure refund

abbrev pub customer_by_user : ℕ → Db → Option Customer
customer_by_user user_id db = find (λ c. is_live c.deleted_at && c.user_id == user_id) db.customers

-- findCustomerByUserId
unfoldable pub find_customer_by_user_id : ℕ → M Customer
find_customer_by_user_id user_id = do
  found ← query (customer_by_user user_id)
  or_raise found customer_not_found

-- The unique indexes of the customers, on the user and on the customer of the gateway; removed rows count.
abbrev pub customer_taken : ℕ → ℕ → Db → Bool
customer_taken user_id gateway_id db =
    exists (λ c. c.user_id == user_id || c.gateway_customer_id == gateway_id) db.customers

-- createCustomer; the row refers to its user, which must be in the table, soft-deleted or not.
unfoldable pub create_customer : ℕ → CustomerParams → GatewayKey → M Customer
unfolding create_stripe_customer
create_customer user_id params key = do
  gateway_id ← create_stripe_customer params key
  id ← fresh
  taken ← query (customer_taken user_id gateway_id)
  raise_if taken unique_violation
  user_exists ← query (λ db. exists (λ u. u.id == user_id) db.users)
  raise_if (not user_exists) foreign_key_violation
  let customer : Customer = record {
    id = id;
    deleted_at = none;
    gateway_customer_id = gateway_id;
    user_id = user_id;
    email = params.email;
    name = params.name;
  }
  write (λ db. record db { customers = db.customers ++ (customer ∷ []) })
  pure customer

-- updateCustomer
unfoldable pub update_customer : ℕ → CustomerParams → M Customer
unfolding update_stripe_customer find_customer_by_user_id
update_customer user_id params = do
  customer ← find_customer_by_user_id user_id
  update_stripe_customer customer.gateway_customer_id params
  let updated : Customer = record customer { email = params.email; name = params.name }
  write (λ db. record db {
    customers = modify_where (λ c. c.id == customer.id) (λ _. updated) db.customers;
  })
  pure updated

-- deleteCustomer
unfoldable pub delete_customer : ℕ → M Void
unfolding delete_stripe_customer find_customer_by_user_id
delete_customer user_id = do
  customer ← find_customer_by_user_id user_id
  delete_stripe_customer customer.gateway_customer_id
  now ← gets (λ w. w.now)
  write (λ db. record db {
    customers =
        modify_where (λ c. c.id == customer.id) (λ c. record c { deleted_at = some now })
          db.customers;
  })
