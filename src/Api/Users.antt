-- ===== src/Api/Users.antt =====
-- src/modules/users/users-admin.controller.ts and users-public.controller.ts
use dispatch_api.Prelude.{ℕ, Option, String}
use dispatch_api.Dtos.{CreateUser, UpdateUser, UserQuery, RequestUser}
use dispatch_api.World.{M, ◌>>=◌}
use dispatch_api.Pagination.Cursor.{cursor_pipe}
use dispatch_api.Users as Service
use dispatch_api.Users.Accounts as Accounts
use dispatch_api.Users.Profiles as Profiles
use dispatch_api.Api.{
  Response, user_reply, users_reply, cached_reply, reply, reply_empty, require_key, RouteMeta,
  open_route, signed_in_route, role_route, admin_management, the_user,
}

pub data UsersAdminRoute : Type 0 where
  create : CreateUser → Option String → UsersAdminRoute
  find_all : UserQuery → Option String → UsersAdminRoute
  find_one : ℕ → UsersAdminRoute
  update : ℕ → UpdateUser → UsersAdminRoute
  remove : ℕ → UsersAdminRoute

abbrev pub admin_meta : UsersAdminRoute → RouteMeta
admin_meta (create _ _) = role_route admin_management
admin_meta (find_all _ _) = role_route admin_management
admin_meta (find_one _) = role_route admin_management
admin_meta (update _ _) = role_route admin_management
admin_meta (remove _) = role_route admin_management

-- UsersAdminController
unfoldable pub users_admin : UsersAdminRoute → Option RequestUser → M Response
users_admin (create dto header) caller = do
  key ← require_key header
  r ← the_user caller
  reply cached_reply (Accounts.admin_create dto key r)
users_admin (find_all q text) caller = do
  cursor ← cursor_pipe text
  reply users_reply (Profiles.admin_find_all q cursor)
users_admin (find_one id) caller = reply user_reply (Profiles.admin_find_one id)
users_admin (update id dto) caller = do
  r ← the_user caller
  reply user_reply (Accounts.admin_update id dto r)
users_admin (remove id) caller = do r ← the_user caller; reply_empty (Service.admin_remove id r)

pub data UsersPublicRoute : Type 0 where
  create : CreateUser → Option String → UsersPublicRoute
  find_all : Option String → Option String → UsersPublicRoute
  find_me : UsersPublicRoute
  find_one : ℕ → UsersPublicRoute
  update : UpdateUser → UsersPublicRoute
  remove : UsersPublicRoute

abbrev pub public_meta : UsersPublicRoute → RouteMeta
public_meta (UsersPublicRoute.create _ _) = open_route
public_meta _ = signed_in_route

-- UsersPublicController
unfoldable pub users_public : UsersPublicRoute → Option RequestUser → M Response
users_public (UsersPublicRoute.create dto header) caller = do
  key ← require_key header
  reply cached_reply (Accounts.public_create dto key)
users_public (UsersPublicRoute.find_all name text) caller = do
  cursor ← cursor_pipe text
  reply users_reply (Profiles.public_find_all name cursor)
users_public UsersPublicRoute.find_me caller = do
  r ← the_user caller
  reply user_reply (Profiles.public_find_me r)
users_public (UsersPublicRoute.find_one id) caller = reply user_reply (Profiles.public_find_one id)
users_public (UsersPublicRoute.update dto) caller = do
  r ← the_user caller
  reply user_reply (Accounts.public_update dto r)
users_public UsersPublicRoute.remove caller = do
  r ← the_user caller
  reply_empty (Service.public_remove r)
