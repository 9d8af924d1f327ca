-- ===== src/Tests/Texts.antt =====
-- Runs of the keys as texts and of the table in another order.
use text.Mathlib.Text.{◌==◌ as text_eq}
use mathlib.Core.Quot.{Quot}
use text.Mathlib.TextEquality.{eq_iff}
use dispatch_api.World.{
  LockKey, CacheKey, user_update, order_update, item_find_all, item_find_one, lock_eq, cache_eq,
  space_code,
}
use dispatch_api.Prelude.{
  ==_iff, ap, ℕ, zero, suc, ◌≡◌, refl, none, some, [], ◌∷◌, ◌==◌, String, same_truth,
}
use dispatch_api.Enums.{pending, paid}
use dispatch_api.Keys.{lock_text, cache_text, glob, item_find_all_pattern}
use dispatch_api.Keys.Distinct.{lock_texts_iff, cache_texts_lem}
use dispatch_api.Orders.Listing.{OrderQuery, filter_orders}
use dispatch_api.Orders.Listing.Unordered.{Rows, page_of_table, listing_forgets_order}
use dispatch_api.Pagination.Unordered.{Reordered}
use dispatch_api.Tests.Data.{db, order}

-- Ids as texts: as many strokes.
abbrev strokes : ℕ → String
strokes zero = ""
strokes (suc n) = String.◌∷◌ "1" (strokes n)

abbrev lock_11 : LockKey
lock_11 = record { space = order_update; id = 11 }

abbrev lock_7 : LockKey
lock_7 = record { space = user_update; id = 7 }

abbrev all_items : CacheKey
all_items = record { space = item_find_all; id = 3 }

abbrev one_item : CacheKey
one_item = record { space = item_find_one; id = 3 }

abbrev size : String → ℕ
size String.[] = 0
size (String.◌∷◌ c s) = suc (size s)

size-strokes : (n : ℕ) → size (strokes n) ≡ n
size-strokes zero = refl
size-strokes (suc n) = ap suc (size-strokes n)

strokes_apart : (i j : ℕ) → text_eq (strokes i) (strokes j) ≡ (i == j)
strokes_apart i j =
    same_truth (text_eq (strokes i) (strokes j)) (i == j)
      (λ h.
        let e = ap size ((eq_iff (strokes i) (strokes j)).0 h) in
        (==_iff i j).1 (cc (e, size-strokes i, size-strokes j)))
      (λ h. (eq_iff (strokes i) (strokes j)).1 (ap strokes ((==_iff i j).0 h)))

lock_texts_iff_example :
    text_eq (lock_text strokes lock_11) (lock_text strokes lock_7) ≡ lock_eq lock_11 lock_7
lock_texts_iff_example = lock_texts_iff strokes strokes_apart lock_11 lock_7

cache_texts_lem_example :
    (text_eq (cache_text strokes all_items) (cache_text strokes one_item)
      ≡ cache_eq all_items one_item)
    × (glob item_find_all_pattern (cache_text strokes all_items)
        ≡ (space_code item_find_all == space_code all_items.space))
cache_texts_lem_example = cache_texts_lem strokes strokes_apart all_items one_item

-- Two orders of one customer, in the two orders that a table can hold them in.
abbrev one_way : Rows
one_way = (order 11 paid ∷ order 12 pending ∷ [], refl)

abbrev other_way : Rows
other_way = (order 12 pending ∷ order 11 paid ∷ [], refl)

abbrev of_ann : OrderQuery
of_ann = record { user_id = some 7; status = none; start_date = none; end_date = none }

listing_forgets_order_example :
    (filter_orders of_ann none (record db { orders = one_way.0 })
      ≡ filter_orders of_ann none (record db { orders = other_way.0 }))
    × (filter_orders of_ann none (record db { orders = other_way.0 })
        ≡ page_of_table of_ann none db (Quot.mk one_way))
listing_forgets_order_example =
    listing_forgets_order of_ann none db one_way other_way
      (Reordered.swap (order 11 paid) (order 12 pending) [])
