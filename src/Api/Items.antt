-- ===== src/Api/Items.antt =====
-- src/modules/items/items-admin.controller.ts and items-public.controller.ts
use dispatch_api.Prelude.{ℕ, Option, String}
use dispatch_api.Dtos.{CreateItem, UpdateItem, ItemQuery, RequestUser}
use dispatch_api.World.{M, ◌>>=◌}
use dispatch_api.Pagination.Cursor.{cursor_pipe}
use dispatch_api.Items as Service
use dispatch_api.Items.Listing as Listing
use dispatch_api.Api.{
  Response, item_reply, cached_reply, reply, reply_empty, require_key, RouteMeta, signed_in_route,
  role_route, admin_management,
}

pub data ItemsAdminRoute : Type 0 where
  create : CreateItem → Option String → ItemsAdminRoute
  find_all : ItemQuery → Option String → ItemsAdminRoute
  find_one : ℕ → ItemsAdminRoute
  update : ℕ → UpdateItem → ItemsAdminRoute
  remove : ℕ → ItemsAdminRoute

abbrev pub admin_meta : ItemsAdminRoute → RouteMeta
admin_meta (create _ _) = role_route admin_management
admin_meta (find_all _ _) = role_route admin_management
admin_meta (find_one _) = role_route admin_management
admin_meta (update _ _) = role_route admin_management
admin_meta (remove _) = role_route admin_management

-- ItemsAdminController
unfoldable pub items_admin : ItemsAdminRoute → Option RequestUser → M Response
items_admin (create dto header) caller = do
  key ← require_key header
  reply cached_reply (Service.admin_create dto key)
items_admin (find_all q text) caller = do
  cursor ← cursor_pipe text
  reply cached_reply (Listing.admin_find_all (record q { cursor = cursor }))
items_admin (find_one id) caller = reply cached_reply (Service.admin_find_one id)
items_admin (update id dto) caller = reply item_reply (Service.admin_update id dto)
items_admin (remove id) caller = reply_empty (Service.admin_remove id)

pub data ItemsPublicRoute : Type 0 where
  find_all : ItemQuery → Option String → ItemsPublicRoute
  find_one : ℕ → ItemsPublicRoute

abbrev pub public_meta : ItemsPublicRoute → RouteMeta
public_meta _ = signed_in_route

-- ItemsPublicController
unfoldable pub items_public : ItemsPublicRoute → Option RequestUser → M Response
items_public (ItemsPublicRoute.find_all q text) caller = do
  cursor ← cursor_pipe text
  reply cached_reply (Listing.public_find_all (record q { cursor = cursor }))
items_public (ItemsPublicRoute.find_one id) caller = reply cached_reply (Service.public_find_one id)
