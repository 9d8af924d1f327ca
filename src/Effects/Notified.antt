-- ===== src/Effects/Notified.antt =====
-- How the job that notifies a user ends (notify-user-job.strategy.ts in src/modules/effects).
use dispatch_api.Prelude.{
  ℕ, ◌+◌, ◌==◌, ==_refl, ◌≡◌, true, false, none, exists, [], ◌∷◌, ◌++◌, keep, length, arith,
  Bool-cases, inl, inr, List, if◌then◌else◌,
}
use dispatch_api.Enums.{NotificationType, NotificationEvent}
use dispatch_api.Entities.{Notification, NotificationData}
use dispatch_api.World.{World, ok, view}
use dispatch_api.Notifications.{create, unread_count, is_unread_of, count_unread}
use dispatch_api.Notifications.Inbox.{find_translated_by_id}
use dispatch_api.Effects.{notify_execute, notify_user, skip_missing_user}

abbrev pub new_notification :
    ℕ → NotificationType → NotificationEvent → NotificationData → World → Notification
new_notification user_id type event extra w = record {
  id = w.next_id;
  created_at = w.now;
  deleted_at = none;
  user_id = user_id;
  type = type;
  event = event;
  data_of = extra;
  read = false;
  read_at = none;
}

-- One more that is unread.
unread-append :
    (user_id : ℕ) (n : Notification) (ns : List Notification)
    → is_unread_of user_id n ≡ true
    → length (keep (is_unread_of user_id) (ns ++ (n ∷ [])))
      ≡ length (keep (is_unread_of user_id) ns) + 1
unread-append user_id n [] unread = ground arith
unread-append user_id n (x ∷ ns) unread = ground (arith, unread-append user_id n ns)

-- The job returns, whatever the translation does. If the user's row is there, removed or not, one
-- notification is added, and the user has one unread notification more; if it is not, nothing is written.
pub notify_execute_lem :
    (user_id : ℕ) (type : NotificationType) (event : NotificationEvent) (extra : NotificationData)
    (w : World)
    → let (r, w') = notify_execute user_id type event extra w in
      let n = new_notification user_id type event extra w in
      (r ≡ ok tt)
      × (if exists (λ u. u.id == user_id) (view w).users
          then ((view w').notifications ≡ (view w).notifications ++ (n ∷ []))
            × ((count_unread user_id w').0 ≡ ok (unread_count user_id (view w) + 1))
          else view w' ≡ view w)
unfolding notify_execute notify_user skip_missing_user create count_unread find_translated_by_id
notify_execute_lem user_id type event extra w =
    elim (Bool-cases (exists (λ u. u.id == user_id) (view w).users)) [
      | inl here ↦ (
        ground arith,
        rw here (
          ground arith,
          ground (
            arith,
            ==_refl user_id,
            unread-append user_id (new_notification user_id type event extra w)
                (view w).notifications,
          ),
        ),
      )
      | inr gone ↦ (ground arith, rw gone (ground arith))
    ]
