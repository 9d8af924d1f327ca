-- ===== src/Payments/Gateway.antt =====
-- The reading calls of src/modules/payments/gateways/stripe/providers/stripe.adapter.ts, and the
-- webhook with its controller (stripe.controller.ts).
use dispatch_api.Prelude.{
  ℕ, Bool, true, Option, none, String, map, map_option, truthy, if◌then◌else◌,
}
use dispatch_api.Dtos.{
  CursorParams, PagCursorResult, PaymentIntent, StripeRefund, StripeCustomer, PgwCustomer,
  StripeEvent, payment_intent_succeeded, payment_intent_failed, other_event,
}
use dispatch_api.World.{
  gateway_failed, customer_not_found, invalid_signature, signature_required, M, Void, pure, gets,
  or_raise, raise_if, ◌>>=◌, ◌>>◌,
}
use dispatch_api.Pagination.{cursor_limit, cursor_start, uncapped_limit, last}

-- mapToCustomerResult
abbrev pub to_customer_result : StripeCustomer → PgwCustomer
to_customer_result c = record {
  id = c.id;
  name = truthy c.name;
  email = truthy c.email;
  user_id = c.user_id;
  address = c.address;
}

-- findAllCustomers; its cursor is the id of the last customer.
unfoldable pub find_all_customers : Option CursorParams → M (PagCursorResult PgwCustomer)
find_all_customers cursor = do
  answer ← gets (λ w.
      w.env.stripe_reads.list_customers (uncapped_limit (cursor_limit cursor))
        (cursor_start cursor))
  page ← or_raise answer gateway_failed
  pure (record {
    items = map to_customer_result page.customers;
    next_cursor =
        if page.has_more
        then map_option (λ (c : StripeCustomer). c.id)
            (last (λ (c : StripeCustomer). c.id) page.customers)
        else none;
    has_more = page.has_more;
  })

-- findOneCustomer
unfoldable pub find_one_customer : ℕ → M PgwCustomer
find_one_customer id = do
  answer ← gets (λ w. w.env.stripe_reads.retrieve_customer id)
  c ← or_raise answer gateway_failed
  raise_if c.deleted customer_not_found
  pure (to_customer_result c)

-- findOnePayment
unfoldable pub find_one_payment : ℕ → M PaymentIntent
find_one_payment id = do
  answer ← gets (λ w. w.env.stripe_reads.retrieve_payment_intent id)
  or_raise answer gateway_failed

-- findOneRefundPayment
unfoldable pub find_one_refund_payment : ℕ → M StripeRefund
find_one_refund_payment id = do
  answer ← gets (λ w. w.env.stripe_reads.retrieve_refund id)
  or_raise answer gateway_failed

-- The cases of `event.type`: nothing is done for a payment event, and another one is only logged.
abbrev pub on_event : StripeEvent → M Void
on_event payment_intent_succeeded = pure tt
on_event payment_intent_failed = pure tt
on_event other_event = pure tt

-- StripeAdapter.processWebhook; `constructEvent` throws on a signature that does not fit.
unfoldable pub process_webhook : String → String → M Void
process_webhook payload signature = do
  answer ← gets (λ w. w.env.stripe_reads.construct_event payload signature)
  event ← or_raise answer invalid_signature
  on_event event

-- StripeController.processWebhook
unfoldable pub receive_webhook : String → Option String → M Bool
receive_webhook body signature = do
  s ← or_raise (truthy signature) signature_required
  process_webhook body s
  pure true
