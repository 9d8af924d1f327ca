-- ===== src/Orders/Graph.antt =====
-- What the paths of an order through its statuses have in common (src/modules/orders/helpers/order-transition-policy.ts).
use dispatch_api.Prelude.{
  ℕ, ◌+◌, ◌≤◌, ◌<◌, ◌≡◌, refl, Bool, true, false, ◌&&◌, List, [], ◌∷◌, length, ◌⊎◌, arith,
}
use dispatch_api.Enums.{
  OrderStatus, pending, paid, processed, shipped, delivered, canceled, refunded,
}
use dispatch_api.Orders.Policy.{can_transition, includes}

-- A sequence of changes, each allowed by the policy.
unfoldable pub follows : OrderStatus → List OrderStatus → Bool
follows s [] = true
follows s (t ∷ ts) = can_transition s t && follows t ts

-- The status that the changes lead to.
abbrev pub final : OrderStatus → List OrderStatus → OrderStatus
final s [] = s
final s (t ∷ ts) = final t ts

abbrev rank : OrderStatus → ℕ
rank pending = 0
rank paid = 1
rank processed = 2
rank shipped = 3
rank delivered = 4
rank canceled = 5
rank refunded = 5

can_transition-rank : (s t : OrderStatus) → can_transition s t ≡ true → rank s < rank t
unfolding can_transition
can_transition-rank s t h = ground arith

follows-rank :
    (s : OrderStatus) (ts : List OrderStatus) → follows s ts ≡ true → length ts + rank s ≤ 5
unfolding follows
follows-rank pending [] h = omega arith
follows-rank s [] h = ground arith
follows-rank s (t ∷ ts) h = ground (arith, can_transition-rank s t, follows-rank t ts)

-- An order changes its status at most five times under the policy, whatever the changes are.
pub length-follows : (s : OrderStatus) (ts : List OrderStatus) → follows s ts ≡ true → length ts ≤ 5
length-follows s ts h = omega (arith, follows-rank s ts h)

-- Only payment leads away from an unpaid order, apart from its cancellation.
abbrev is_unpaid : OrderStatus → Bool
is_unpaid pending = true
is_unpaid canceled = true
is_unpaid _ = false

unpaid_step :
    (s t : OrderStatus)
    → is_unpaid s ≡ true
    → can_transition s t ≡ true
    → (t ≡ paid) ⊎ (is_unpaid t ≡ true)
unfolding can_transition
unpaid_step s t u h = ground arith

unpaid_follows :
    (s : OrderStatus) (ts : List OrderStatus)
    → is_unpaid s ≡ true
    → follows s ts ≡ true
    → final s ts ≡ refunded
    → includes paid ts ≡ true
unfolding follows
unpaid_follows s [] u h f = absurd (ground arith)
unpaid_follows s (t ∷ ts) u h f = ground (arith, unpaid_step s t u, unpaid_follows t ts)

-- A new order that ends refunded has been paid on the way: no refund without a payment.
pub refunded_was_paid :
    (ts : List OrderStatus)
    → follows pending ts ≡ true
    → final pending ts ≡ refunded
    → includes paid ts ≡ true
refunded_was_paid ts h f = unpaid_follows pending ts refl h f
