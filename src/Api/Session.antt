-- ===== src/Api/Session.antt =====
-- src/modules/auth/auth.controller.ts and src/modules/notifications/notifications.controller.ts
use dispatch_api.Prelude.{ℕ, Option, true, String}
use dispatch_api.Dtos.{RequestUser}
use dispatch_api.World.{M, pure, ◌>>=◌, ◌>>◌}
use dispatch_api.Pagination.Cursor.{cursor_pipe}
use dispatch_api.Auth as Auth
use dispatch_api.Notifications as Notifications
use dispatch_api.Notifications.Inbox as Inbox
use dispatch_api.Api.{
  Response, session_reply, notifications_reply, count_reply, flag_reply, reply, reply_empty,
  RouteMeta, open_route, signed_in_route, the_user,
}

-- The request to refresh comes with the user of its refresh token, if that is valid.
pub data AuthRoute : Type 0 where
  login : String → String → AuthRoute
  refresh : Option RequestUser → AuthRoute
  logout : AuthRoute

abbrev pub auth_meta : AuthRoute → RouteMeta
auth_meta (login _ _) = open_route
auth_meta (refresh _) = open_route
auth_meta logout = signed_in_route

-- AuthController; JwtRefreshAuthGuard stands before `refresh`.
unfoldable pub auth : AuthRoute → Option RequestUser → M Response
auth (login email password) caller = reply session_reply (Auth.login email password)
auth (refresh holder) caller = do r ← the_user holder; reply session_reply (Auth.refresh r)
auth logout caller = do r ← the_user caller; reply_empty (Auth.logout r)

pub data NotificationsRoute : Type 0 where
  find_by_user : Option String → NotificationsRoute
  mark_as_read : ℕ → NotificationsRoute
  count_unread : NotificationsRoute
  has_new_notifications : NotificationsRoute

abbrev pub notifications_meta : NotificationsRoute → RouteMeta
notifications_meta _ = signed_in_route

-- NotificationsController
unfoldable pub notifications : NotificationsRoute → Option RequestUser → M Response
notifications (find_by_user text) caller = do
  cursor ← cursor_pipe text
  r ← the_user caller
  reply notifications_reply
      (Inbox.find_by_user (record { user_id = r.id; language = r.language; cursor = cursor }))
notifications (mark_as_read id) caller = do
  r ← the_user caller
  Notifications.mark_as_read id r.id
  pure (flag_reply true)
notifications count_unread caller = do
  r ← the_user caller
  reply count_reply (Notifications.count_unread r.id)
notifications has_new_notifications caller = do
  r ← the_user caller
  reply flag_reply (Notifications.has_new_notifications r.id)
