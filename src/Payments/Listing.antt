-- ===== src/Payments/Listing.antt =====
-- The listing of src/modules/payments/payments.service.ts and the filter of payment.repository.ts, and
-- the lookups of that service.
use dispatch_api.Prelude.{
  ℕ, Bool, true, false, ◌&&◌, ◌==◌, ltb, Option, none, some, map_option, keep, find,
}
use dispatch_api.Entities.{Payment, Customer, Db, is_live}
use dispatch_api.Dtos.{CursorParams, PagCursorResult, PaymentResponse}
use dispatch_api.World.{customer_not_found, M, query, or_raise, ◌>>=◌, ◌>>◌}
use dispatch_api.Pagination.{
  cursor_limit, uncapped_limit, fetched, require_limit, page_of, map_page,
}
use dispatch_api.Pagination.Newest.{newest_first}
use dispatch_api.Payments.Service.{to_payment_response, payment_by_order}

-- src/modules/payments/dto/payment-cursor-query.dto.ts
pub record PaymentQuery : Type 0 where
  pub user_id : Option ℕ
  pub order_id : Option ℕ
  pub cursor : Option CursorParams

abbrev pub is_wanted : Option ℕ → ℕ → Bool
is_wanted none id = true
is_wanted (some x) id = id == x

abbrev pub matches : PaymentQuery → Payment → Bool
matches q p =
    is_live p.deleted_at && (is_wanted q.user_id p.user_id && is_wanted q.order_id p.order_id)

-- The condition that any cursor adds: without a `startingAfter` it compares with NULL, which no row
-- passes.
abbrev pub is_before : Option CursorParams → ℕ → Bool
is_before none t = true
is_before (some c) t = elim c.starting_after [ none ↦ false | some s ↦ ltb t s ]

-- PaymentRepository.filter
unfoldable pub filter_payments : PaymentQuery → Db → PagCursorResult Payment
filter_payments q db =
    let limit = uncapped_limit (cursor_limit q.cursor) in
    let sorted =
      newest_first (λ (p : Payment). p.created_at) (λ p. p.id) (keep (matches q) db.payments) in
    page_of (λ (p : Payment). p.created_at) limit
      (fetched limit (keep (λ p. is_before q.cursor p.created_at) sorted))

-- findAllPayments
unfoldable pub find_all_payments : PaymentQuery → M (PagCursorResult PaymentResponse)
find_all_payments q = do
  require_limit (uncapped_limit (cursor_limit q.cursor))
  query (λ db. map_page to_payment_response (filter_payments q db))

-- findPaymentByOrderId
unfoldable pub find_payment_by_order_id : ℕ → M (Option PaymentResponse)
find_payment_by_order_id order_id =
    query (λ db. map_option to_payment_response (payment_by_order order_id db))

abbrev pub customer_by_gateway_id : ℕ → Db → Option Customer
customer_by_gateway_id id db =
    find (λ c. is_live c.deleted_at && c.gateway_customer_id == id) db.customers

-- findOneCustomer
unfoldable pub find_one_customer : ℕ → M Customer
find_one_customer id = do
  found ← query (customer_by_gateway_id id)
  or_raise found customer_not_found
