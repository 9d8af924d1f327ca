-- ===== src/Api/Roles.antt =====
-- Who may call what, role by role, against the decorators of the controllers of src/modules.
use dispatch_api.Prelude.{
  ◌≡◌, refl, Bool, true, false, Option, none, some, List, ◌∙◌, arith, if◌then◌else◌, Bool-cases,
  inl, inr,
}
use dispatch_api.Enums.{UserRole, superadmin, admin, shipper, delivery, financial}
use dispatch_api.Dtos.{RequestUser}
use dispatch_api.World.{World, Error, unauthorized, forbidden, err}
use dispatch_api.Users.{can_activate}
use dispatch_api.Api.{RouteMeta, guard_route}
use dispatch_api.Api.Users as Users
use dispatch_api.Api.Items as Items
use dispatch_api.Api.Orders as Orders
use dispatch_api.Api.Session as Session
use dispatch_api.Api.Routes.{
  Route, users_admin, users_public, items_admin, items_public, orders_admin, orders_public, auth,
  notifications, stripe_webhook, meta_of, handler_of, respond,
}

-- What can be called without an account: signing up, in and on, and what Stripe calls.
abbrev pub needs_no_account : Route → Bool
needs_no_account (users_public (Users.UsersPublicRoute.create _ _)) = true
needs_no_account (auth (Session.login _ _)) = true
needs_no_account (auth (Session.refresh _)) = true
needs_no_account (stripe_webhook _ _) = true
needs_no_account _ = false

-- What each role does with the orders of others.
abbrev pub may_handle : UserRole → Orders.OrdersAdminRoute → Bool
may_handle superadmin q = true
may_handle admin q = true
may_handle financial (Orders.find_all _ _) = true
may_handle financial (Orders.find_one _) = true
may_handle financial (Orders.cancel _) = true
may_handle financial (Orders.refund _) = true
may_handle shipper (Orders.ship _ _) = true
may_handle delivery (Orders.deliver _) = true
may_handle _ q = false

abbrev pub is_administrator : UserRole → Bool
is_administrator superadmin = true
is_administrator admin = true
is_administrator _ = false

abbrev pub may_call : UserRole → Route → Bool
may_call role (users_admin _) = is_administrator role
may_call role (items_admin _) = is_administrator role
may_call role (orders_admin q) = may_handle role q
may_call role _ = true

-- Why a caller is turned away.
abbrev pub refusal : Route → Option RequestUser → Option Error
refusal q none = if needs_no_account q then none else some unauthorized
refusal q (some r) = if may_call r.role q then none else some forbidden

-- The roles of a route let in whom the table does.
abbrev lets_in : RouteMeta → UserRole → Bool
lets_in meta role = can_activate meta.is_public meta.roles (some role)

order_roles :
    (role : UserRole) (q : Orders.OrdersAdminRoute)
    → lets_in (Orders.admin_meta q) role ≡ may_handle role q
unfolding can_activate
order_roles role q = ground arith

user_roles :
    (role : UserRole) (q : Users.UsersAdminRoute)
    → lets_in (Users.admin_meta q) role ≡ is_administrator role
unfolding can_activate
user_roles role q = ground arith

item_roles :
    (role : UserRole) (q : Items.ItemsAdminRoute)
    → lets_in (Items.admin_meta q) role ≡ is_administrator role
unfolding can_activate
item_roles role q = ground arith

lets_in_iff : (role : UserRole) (q : Route) → lets_in (meta_of q) role ≡ may_call role q
unfolding meta_of can_activate
lets_in_iff role (users_admin q) = user_roles role q
lets_in_iff role (users_public q) = ground arith
lets_in_iff role (items_admin q) = item_roles role q
lets_in_iff role (items_public q) = refl
lets_in_iff role (orders_admin q) = order_roles role q
lets_in_iff role (orders_public q) = refl
lets_in_iff role (auth q) = ground arith
lets_in_iff role (notifications q) = refl
lets_in_iff role (stripe_webhook _ _) = refl

is_public_iff : (q : Route) → (meta_of q).is_public ≡ needs_no_account q
unfolding meta_of
is_public_iff (users_admin q) = ground arith
is_public_iff (users_public q) = ground arith
is_public_iff (items_admin q) = ground arith
is_public_iff (items_public q) = refl
is_public_iff (orders_admin q) = ground arith
is_public_iff (orders_public q) = refl
is_public_iff (auth q) = ground arith
is_public_iff (notifications q) = refl
is_public_iff (stripe_webhook _ _) = refl

public_lets_in :
    (b : Bool) (roles : Option (List UserRole)) (role : Option UserRole)
    → b ≡ true
    → can_activate b roles role ≡ true
unfolding can_activate
public_lets_in true roles role h = refl
public_lets_in false roles role h = absurd (ground arith)

-- The decorators of the controllers say what the table by roles says: a request is handed to its handler
-- if the caller may make it, and else it is refused and nothing is changed.
pub respond_iff :
    (q : Route) (caller : Option RequestUser) (w : World)
    → respond q caller w
      ≡ elim (refusal q caller) [ none ↦ handler_of q caller w | some e ↦ (err e, w) ]
unfolding respond guard_route
respond_iff q none w = elim (Bool-cases (needs_no_account q)) [
  | inl yes_public ↦ rw yes_public (
      ground (
        arith,
        is_public_iff q,
        public_lets_in (meta_of q).is_public (meta_of q).roles none (is_public_iff q ∙ yes_public),
      ))
  | inr no_public ↦ rw no_public (ground (arith, is_public_iff q))
]
respond_iff q (some r) w = elim (Bool-cases (may_call r.role q)) [
  | inl may ↦ rw may (ground (arith, lets_in_iff r.role q))
  | inr may_not ↦ rw may_not (ground (arith, lets_in_iff r.role q))
]
