-- ===== src/Orders/Policy.antt =====
-- src/modules/orders/helpers/order-transition-policy.ts
use dispatch_api.Prelude.{Bool, false, List, [], ◌∷◌, ◌||◌, ◌==◌}
use dispatch_api.Enums.{
  OrderStatus, status_code, pending, paid, processed, shipped, delivered, canceled, refunded,
}

-- PRECONDITIONS, read by `getPreconditions`.
unfoldable pub get_preconditions : OrderStatus → List OrderStatus
get_preconditions pending = []
get_preconditions paid = pending ∷ []
get_preconditions processed = paid ∷ []
get_preconditions shipped = processed ∷ []
get_preconditions delivered = shipped ∷ []
get_preconditions canceled = pending ∷ paid ∷ processed ∷ []
get_preconditions refunded = paid ∷ processed ∷ shipped ∷ delivered ∷ []

-- `Array.includes`
abbrev pub includes : OrderStatus → List OrderStatus → Bool
includes s [] = false
includes s (t ∷ ts) = status_code t == status_code s || includes s ts

unfoldable pub can_transition : OrderStatus → OrderStatus → Bool
unfolding get_preconditions
can_transition current target = includes current (get_preconditions target)
