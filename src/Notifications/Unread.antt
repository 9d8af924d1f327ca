-- ===== src/Notifications/Unread.antt =====
-- What reading a notification does to the unread count (src/modules/notifications/notifications.service.ts).
use dispatch_api.Prelude.{
  ℕ, ◌+◌, ◌≡◌, true, false, ◌==◌, none, some, List, [], ◌∷◌, find, keep, upsert, length, arith,
  key-find, find-upsert,
}
use dispatch_api.Entities.{Notification}
use dispatch_api.World.{World, notifications_update, ok}
use dispatch_api.Guard.{is_held, lock, transaction, lock_and_transaction}
use dispatch_api.Notifications.{
  mark_as_read, mark_as_read_work, notification_by_id, is_unread_of, count_unread, unread_count,
}

unread_after :
    (user_id : ℕ) (n m : Notification) (ns : List Notification)
    → find (λ x. x.id == n.id) ns ≡ some n
    → is_unread_of user_id n ≡ true
    → m.id ≡ n.id
    → is_unread_of user_id m ≡ false
    → length (keep (is_unread_of user_id) (upsert (λ x. x.id == m.id) m ns)) + 1
      ≡ length (keep (is_unread_of user_id) ns)
unread_after user_id n m [] found was same now = absurd (ground arith)
unread_after user_id n m (x ∷ xs) found was same now = ground (arith, unread_after user_id n m xs)

-- Outside of a transaction and with its lock free, the owner's reading of an unread notification
-- lowers the count of unread ones by one, and reading it again changes nothing.
pub mark_as_read_once :
    (id user_id : ℕ) (w : World) (n : Notification)
    → notification_by_id id w.committed ≡ some n
    → n.user_id ≡ user_id
    → n.read ≡ false
    → w.tx ≡ none
    → is_held (record { space = notifications_update; id = id }) w.held ≡ false
    → let (r, w') = mark_as_read id user_id w in
      (r ≡ ok tt)
      × ((count_unread user_id w).0 ≡ ok (unread_count user_id w'.committed + 1))
      × (mark_as_read id user_id w' ≡ (ok tt, w'))
unfolding mark_as_read mark_as_read_work lock_and_transaction lock transaction count_unread
mark_as_read_once id user_id w n found mine unread outside free =
    let m : Notification = record n { read = true; read_at = some w.now } in
    (
      ground arith,
      ground (
        arith,
        key-find (λ (x : Notification). x.id) w.committed.notifications id {r = n},
        unread_after user_id n m w.committed.notifications,
      ),
      ground (
        arith,
        key-find (λ (x : Notification). x.id) w.committed.notifications id {r = n},
        find-upsert (λ (x : Notification). x.id) m w.committed.notifications id,
      ),
    )
