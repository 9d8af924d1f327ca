-- ===== src/Notifications/Inbox.antt =====
-- src/modules/notifications: the reading operations of notifications.service.ts, with the texts of
-- notification-output.factory.ts and the filter of notification.repository.ts.
use dispatch_api.Prelude.{ℕ, Bool, ◌&&◌, ◌==◌, Option, some, String, keep, or_else, truthy}
use dispatch_api.Entities.{Notification, NotificationData, Db, is_live}
use dispatch_api.Dtos.{CursorParams, PagCursorResult, TextKey, title_of, message_of}
use dispatch_api.World.{
  Env, notification_not_found, type_error, M, pure, gets, query, or_raise, ◌>>=◌, ◌>>◌,
}
use dispatch_api.Pagination.{
  cursor_limit, is_after_cursor, page_of, map_page, uncapped_limit, fetched, require_limit,
}
use dispatch_api.Pagination.Newest.{newest_first}
use dispatch_api.Notifications.{notification_by_id, live_user}
use dispatch_api.Notifications.Templates.{key_text}

-- src/modules/notifications/dto/notification-cursor-query.dto.ts
pub record NotificationQuery : Type 0 where
  pub user_id : ℕ
  pub language : String
  pub cursor : Option CursorParams

-- What the service answers: the row, its title and its message.
pub record TranslatedNotification : Type 0 where
  pub notification : Notification
  pub title : String
  pub message : String

-- NotificationOutputFactory.translate: `language || 'en'`
abbrev pub translate_text : Env → TextKey → NotificationData → Option String → String
translate_text env key args language =
    env.translate (key_text key) (or_else (truthy language) "en") args

-- NotificationOutputFactory.create, with NotificationEventToTemplateMapper, and translateBulk
abbrev pub translate : Env → String → Notification → TranslatedNotification
translate env language n = record {
  notification = n;
  title = translate_text env (title_of n.event) n.data_of (some language);
  message = translate_text env (message_of n.event) n.data_of (some language);
}

abbrev pub is_of : ℕ → Notification → Bool
is_of user_id n = n.user_id == user_id && is_live n.deleted_at

-- NotificationRepository.filterByUser
unfoldable pub filter_by_user : NotificationQuery → Db → PagCursorResult Notification
filter_by_user q db =
    let limit = uncapped_limit (cursor_limit q.cursor) in
    let sorted =
      newest_first (λ (n : Notification). n.created_at) (λ n. n.id)
        (keep (is_of q.user_id) db.notifications) in
    page_of (λ (n : Notification). n.created_at) limit
      (fetched limit (keep (λ n. is_after_cursor q.cursor n.created_at) sorted))

-- findByUser
unfoldable pub find_by_user : NotificationQuery → M (PagCursorResult TranslatedNotification)
find_by_user q = do
  env ← gets (λ w. w.env)
  require_limit (uncapped_limit (cursor_limit q.cursor))
  query (λ db. map_page (translate env q.language) (filter_by_user q db))

-- findTranslatedById: the user is loaded with the row, and is not there if it is soft-deleted.
unfoldable pub find_translated_by_id : ℕ → M TranslatedNotification
find_translated_by_id id = do
  found ← query (notification_by_id id)
  n ← or_raise found notification_not_found
  owner ← query (live_user n.user_id)
  u ← or_raise owner type_error
  env ← gets (λ w. w.env)
  pure (translate env u.language n)
