-- ===== src/Api/Orders.antt =====
-- src/modules/orders/orders-admin.controller.ts and orders-public.controller.ts
use dispatch_api.Prelude.{ℕ, Option, List, String}
use dispatch_api.Enums.{OrderStatus}
use dispatch_api.Dtos.{CreateOrderItem, ShipOrder, RequestUser}
use dispatch_api.World.{M, ◌>>=◌}
use dispatch_api.Pagination.Cursor.{cursor_pipe}
use dispatch_api.Orders.Service as Service
use dispatch_api.Orders.Create as Create
use dispatch_api.Orders.Listing as Listing
use dispatch_api.Orders.Listing.{OrderQuery}
use dispatch_api.Api.{
  Response, order_reply, orders_reply, cached_reply, reply, reply_empty, require_key, RouteMeta,
  signed_in_route, role_route, order_financial, order_management, order_shipping, order_delivery,
  the_user,
}

pub data OrdersAdminRoute : Type 0 where
  find_all : OrderQuery → Option String → OrdersAdminRoute
  find_one : ℕ → OrdersAdminRoute
  update : ℕ → OrderStatus → OrdersAdminRoute
  remove : ℕ → OrdersAdminRoute
  ship : ℕ → ShipOrder → OrdersAdminRoute
  deliver : ℕ → OrdersAdminRoute
  cancel : ℕ → OrdersAdminRoute
  refund : ℕ → OrdersAdminRoute

abbrev pub admin_meta : OrdersAdminRoute → RouteMeta
admin_meta (find_all _ _) = role_route order_financial
admin_meta (find_one _) = role_route order_financial
admin_meta (update _ _) = role_route order_management
admin_meta (remove _) = role_route order_management
admin_meta (ship _ _) = role_route order_shipping
admin_meta (deliver _) = role_route order_delivery
admin_meta (cancel _) = role_route order_financial
admin_meta (refund _) = role_route order_financial

-- OrdersAdminController
unfoldable pub orders_admin : OrdersAdminRoute → Option RequestUser → M Response
orders_admin (find_all q text) caller = do
  cursor ← cursor_pipe text
  reply orders_reply (Listing.admin_find_all q cursor)
orders_admin (find_one id) caller = reply order_reply (Listing.admin_find_one id)
orders_admin (update id status) caller = reply order_reply (Service.admin_update id status)
orders_admin (remove id) caller = reply_empty (Service.admin_remove id)
orders_admin (ship id dto) caller = reply order_reply (Service.ship id dto)
orders_admin (deliver id) caller = reply order_reply (Service.deliver id)
orders_admin (cancel id) caller = reply_empty (Service.cancel id)
orders_admin (refund id) caller = reply_empty (Service.refund id)

pub data OrdersPublicRoute : Type 0 where
  create : List CreateOrderItem → Option String → OrdersPublicRoute
  find_by_user : OrderQuery → Option String → OrdersPublicRoute
  find_one : ℕ → OrdersPublicRoute

abbrev pub public_meta : OrdersPublicRoute → RouteMeta
public_meta _ = signed_in_route

-- OrdersPublicController
unfoldable pub orders_public : OrdersPublicRoute → Option RequestUser → M Response
orders_public (create lines header) caller = do
  key ← require_key header
  r ← the_user caller
  reply cached_reply (Create.public_create lines r.id key)
orders_public (find_by_user q text) caller = do
  cursor ← cursor_pipe text
  r ← the_user caller
  reply orders_reply (Listing.public_find_by_user q r.id cursor)
orders_public (OrdersPublicRoute.find_one id) caller = do
  r ← the_user caller
  reply order_reply (Service.public_find_one id r.id)
