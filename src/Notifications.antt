-- ===== src/Notifications.antt =====
-- src/modules/notifications/notifications.service.ts: making and reading of notifications, and the counts.
pub mod Unread
pub mod Inbox
pub mod Templates
use dispatch_api.Prelude.{
  ℕ, ◌+◌, Bool, true, false, not, ◌&&◌, ◌==◌, Option, none, some, List, [], ◌∷◌, ◌++◌, find, keep,
  upsert, exists, length,
}
use dispatch_api.Enums.{NotificationType, NotificationEvent}
use dispatch_api.Entities.{User, Notification, NotificationData, Db, is_live, only_live}
use dispatch_api.World.{
  foreign_key_violation, LockKey, notifications_update, notification_not_found,
  notification_access_denied, M, Void, pure, gets, query, or_raise, raise_if, write, fresh, ◌>>=◌,
  ◌>>◌,
}
use dispatch_api.Guard.{lock_and_transaction}

abbrev pub live_user : ℕ → Db → Option User
live_user id db = only_live (λ (u : User). u.deleted_at) (find (λ u. u.id == id) db.users)

-- create; the row refers to its user, which must be in the table, soft-deleted or not.
unfoldable pub create : ℕ → NotificationType → NotificationEvent → NotificationData → M Notification
create user_id type event extra = do
  id ← fresh
  now ← gets (λ w. w.now)
  let n : Notification = record {
    id = id;
    created_at = now;
    deleted_at = none;
    user_id = user_id;
    type = type;
    event = event;
    data_of = extra;
    read = false;
    read_at = none;
  }
  user_exists ← query (λ db. exists (λ u. u.id == user_id) db.users)
  raise_if (not user_exists) foreign_key_violation
  write (λ db. record db { notifications = db.notifications ++ (n ∷ []) })
  pure n

abbrev pub notification_by_id : ℕ → Db → Option Notification
notification_by_id id db =
    only_live (λ (n : Notification). n.deleted_at) (find (λ n. n.id == id) db.notifications)

abbrev pub put_notification : Notification → Db → Db
put_notification n db = record db { notifications = upsert (λ x. x.id == n.id) n db.notifications }

-- _markAsRead
unfoldable pub mark_as_read_work : ℕ → ℕ → M Void
mark_as_read_work id user_id = do
  found ← query (notification_by_id id)
  n ← or_raise found notification_not_found
  raise_if (not (n.user_id == user_id)) notification_access_denied
  elim n.read [
    | true ↦ pure tt
    | false ↦ do
      now ← gets (λ w. w.now)
      write (put_notification (record n { read = true; read_at = some now }))
  ]

-- markAsRead
unfoldable pub mark_as_read : ℕ → ℕ → M Void
mark_as_read id user_id =
    lock_and_transaction (record { space = notifications_update; id = id })
      (mark_as_read_work id user_id)

-- `where: { userId, read: false }`, of the rows that are not soft-deleted
abbrev pub is_unread_of : ℕ → Notification → Bool
is_unread_of user_id n = is_live n.deleted_at && (n.user_id == user_id && not n.read)

-- hasNewNotifications
unfoldable pub has_new_notifications : ℕ → M Bool
has_new_notifications user_id = query (λ db. exists (is_unread_of user_id) db.notifications)

abbrev pub unread_count : ℕ → Db → ℕ
unread_count user_id db = length (keep (is_unread_of user_id) db.notifications)

-- countUnread
unfoldable pub count_unread : ℕ → M ℕ
count_unread user_id = query (unread_count user_id)
