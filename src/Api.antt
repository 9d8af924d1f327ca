-- ===== src/Api.antt =====
-- The HTTP interface: what the controllers of src/modules answer, and the guards that a request passes
-- first (src/app.module.ts, src/modules/auth/providers/guards).
pub mod Users
pub mod Items
pub mod Orders
pub mod Session
pub mod Routes
pub mod Roles
use dispatch_api.Prelude.{
  ℕ, Bool, true, false, not, ◌||◌, Option, none, some, List, [], ◌∷◌, String, is_some, truthy,
  map_option,
}
use dispatch_api.Enums.{UserRole, superadmin, admin, shipper, delivery, financial}
use dispatch_api.Dtos.{
  RequestUser, UserResponse, ItemResponse, OrderResponse, PagCursorResult, CacheValue,
  LoginResponse,
}
use dispatch_api.World.{
  unauthorized, forbidden, idempotency_key_required, M, Void, pure, gets, or_raise, raise_if, ◌>>=◌,
  ◌>>◌,
}
use dispatch_api.Users.{can_activate}
use dispatch_api.Notifications.Inbox.{TranslatedNotification}

-- The body of an answer.
pub data Response : Type 0 where
  user_reply : UserResponse → Response
  users_reply : PagCursorResult UserResponse → Response
  cached_reply : CacheValue → Response
  item_reply : ItemResponse → Response
  order_reply : OrderResponse → Response
  orders_reply : PagCursorResult OrderResponse → Response
  session_reply : LoginResponse → Response
  notifications_reply : PagCursorResult TranslatedNotification → Response
  count_reply : ℕ → Response
  flag_reply : Bool → Response
  no_content : Response

-- A handler that awaits an operation and returns what it gives, or nothing.
abbrev pub reply : {A : Type 0} → (A → Response) → M A → M Response
reply f m = m >>= λ a. pure (f a)

abbrev pub reply_empty : {A : Type 0} → M A → M Response
reply_empty m = m >>= λ _. pure no_content

-- `@Headers('idempotency-key')` and the test `if (!idempotencyKey)`; the key is the number of the text.
abbrev pub require_key : Option String → M ℕ
require_key header = do
  text ← or_raise (truthy header) idempotency_key_required
  gets (λ w. w.env.text_code text)

-- ROLE_GROUPS (src/shared/constants/role-groups.constant.ts)
abbrev pub order_financial : List UserRole
order_financial = superadmin ∷ admin ∷ financial ∷ []

abbrev pub order_management : List UserRole
order_management = superadmin ∷ admin ∷ []

abbrev pub order_shipping : List UserRole
order_shipping = superadmin ∷ admin ∷ shipper ∷ []

abbrev pub order_delivery : List UserRole
order_delivery = superadmin ∷ admin ∷ delivery ∷ []

abbrev pub admin_management : List UserRole
admin_management = superadmin ∷ admin ∷ []

-- The metadata of a route: `@Public()` and `@Roles(…)`.
pub record RouteMeta : Type 0 where
  pub is_public : Bool
  pub roles : Option (List UserRole)

abbrev pub open_route : RouteMeta
open_route = record { is_public = true; roles = none }

abbrev pub signed_in_route : RouteMeta
signed_in_route = record { is_public = false; roles = none }

abbrev pub role_route : List UserRole → RouteMeta
role_route roles = record { is_public = false; roles = some roles }

-- The caller is the user of a valid access token, as passport gives it, if there is one. A route that is
-- not public needs one (JwtAuthGuard), and then the roles of the route count (RolesGuard).
unfoldable pub guard_route : {A : Type 0} → RouteMeta → Option RequestUser → M A → M A
guard_route meta caller handler = do
  raise_if (not (meta.is_public || is_some caller)) unauthorized
  raise_if
      (not
        (can_activate meta.is_public meta.roles (map_option (λ (r : RequestUser). r.role) caller)))
      forbidden
  handler

-- `@GetUser() user`
abbrev pub the_user : Option RequestUser → M RequestUser
the_user caller = or_raise caller unauthorized
