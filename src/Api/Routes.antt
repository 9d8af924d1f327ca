-- ===== src/Api/Routes.antt =====
-- All routes, with their guards.
use dispatch_api.Prelude.{Option, String}
use dispatch_api.Dtos.{RequestUser}
use dispatch_api.World.{M}
use dispatch_api.Payments.Gateway.{receive_webhook}
use dispatch_api.Api.{Response, flag_reply, reply, RouteMeta, open_route, guard_route}
use dispatch_api.Api.Users as Users
use dispatch_api.Api.Items as Items
use dispatch_api.Api.Orders as Orders
use dispatch_api.Api.Session as Session

pub data Route : Type 0 where
  users_admin : Users.UsersAdminRoute → Route
  users_public : Users.UsersPublicRoute → Route
  items_admin : Items.ItemsAdminRoute → Route
  items_public : Items.ItemsPublicRoute → Route
  orders_admin : Orders.OrdersAdminRoute → Route
  orders_public : Orders.OrdersPublicRoute → Route
  auth : Session.AuthRoute → Route
  notifications : Session.NotificationsRoute → Route
  stripe_webhook : String → Option String → Route

unfoldable pub meta_of : Route → RouteMeta
meta_of (users_admin q) = Users.admin_meta q
meta_of (users_public q) = Users.public_meta q
meta_of (items_admin q) = Items.admin_meta q
meta_of (items_public q) = Items.public_meta q
meta_of (orders_admin q) = Orders.admin_meta q
meta_of (orders_public q) = Orders.public_meta q
meta_of (auth q) = Session.auth_meta q
meta_of (notifications q) = Session.notifications_meta q
meta_of (stripe_webhook _ _) = open_route

unfoldable pub handler_of : Route → Option RequestUser → M Response
handler_of (users_admin q) caller = Users.users_admin q caller
handler_of (users_public q) caller = Users.users_public q caller
handler_of (items_admin q) caller = Items.items_admin q caller
handler_of (items_public q) caller = Items.items_public q caller
handler_of (orders_admin q) caller = Orders.orders_admin q caller
handler_of (orders_public q) caller = Orders.orders_public q caller
handler_of (auth q) caller = Session.auth q caller
handler_of (notifications q) caller = Session.notifications q caller
handler_of (stripe_webhook body signature) caller =
    reply flag_reply (receive_webhook body signature)

-- A request as it comes in.
unfoldable pub respond : Route → Option RequestUser → M Response
respond q caller = guard_route (meta_of q) caller (handler_of q caller)
