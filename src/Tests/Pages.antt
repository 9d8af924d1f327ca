-- ===== src/Tests/Pages.antt =====
-- Runs of going from page to page, of the cache and of the outbox.
use dispatch_api.Prelude.{
  ℕ, zero, suc, ◌*◌, ◌+◌, ◌≤◌, ◌≡◌, refl, none, Option, List, [], ◌∷◌, ◌++◌, keep, take, exists,
  if◌then◌else◌, ◌==◌, arith,
}
use dispatch_api.Enums.{push, order_paid}
use dispatch_api.Entities.{no_data}
use dispatch_api.Dtos.{CursorParams}
use dispatch_api.World.{ok, view}
use dispatch_api.Pagination.{filter_page, is_after_cursor, default_page_size}
use dispatch_api.Pagination.Cursor.{cursor_pipe, next_cursor_text, to_millis}
use dispatch_api.Pagination.Next.{next_page_continues}
use dispatch_api.Outbox.Drained.{cycles, cycles_empty, jobs_in}
use dispatch_api.Outbox.Cron.{process}
use dispatch_api.Notifications.{count_unread, unread_count}
use dispatch_api.Effects.{notify_execute}
use dispatch_api.Effects.Notified.{new_notification, notify_execute_lem}
use dispatch_api.Tests.Codec.{decode-encode, encode-truthy}
use dispatch_api.Tests.Data.{shop}

-- Rows that are their own times, one in a millisecond, from the latest to 0.
abbrev times : ℕ → List ℕ
times zero = 0 ∷ []
times (suc n) = (n + 1) * 1000 ∷ times n

next_page_continues_example :
    let page = filter_page (λ (t : ℕ). t) none (times 30) in
    (c : Option CursorParams) × (cursor_pipe (next_cursor_text shop.env page) shop ≡ (ok c, shop))
    × (page.items ++ (filter_page (λ (t : ℕ). t) c (times 30)).items
        ≡ take (20 + default_page_size) (keep (λ t. is_after_cursor none t) (times 30)))
unfolding filter_page
next_page_continues_example =
    next_page_continues (λ t. t) shop none (times 30) 20 (λ t. decode-encode (to_millis t))
      (λ t. encode-truthy (to_millis t)) refl refl refl

cycles_empty_example :
    ((cycles 1 shop).committed.outbox ≡ []) × (jobs_in (process shop).1 ≤ jobs_in shop + 100)
cycles_empty_example = cycles_empty 1 shop refl refl (λ name jobs. refl) (omega arith)

notify_execute_lem_example :
    let (r, w') = notify_execute 7 push order_paid no_data shop in
    let n = new_notification 7 push order_paid no_data shop in
    (r ≡ ok tt)
    × (if exists (λ u. u.id == 7) (view shop).users
        then ((view w').notifications ≡ (view shop).notifications ++ (n ∷ []))
          × ((count_unread 7 w').0 ≡ ok (unread_count 7 (view shop) + 1))
        else view w' ≡ view shop)
notify_execute_lem_example = notify_execute_lem 7 push order_paid no_data shop
