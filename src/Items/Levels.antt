-- ===== src/Items/Levels.antt =====
-- The stock of one item under the stock operations.
use dispatch_api.Prelude.{
  ℕ, ◌==◌, ◌≡◌, refl, Bool, true, false, ◌&&◌, Option, some, map_option, List, [], ◌∷◌, keep,
  find-modify_where, key-find, if◌then◌else◌, arith,
}
use dispatch_api.Prelude.Int.{ℤ, pos, ◌+ℤ◌, ◌-ℤ◌, ltb_ℤ}
use dispatch_api.Entities.{Item, Db, is_live}
use dispatch_api.World.{World, ok}
use dispatch_api.Guard.{is_held, lock_and_transaction}
use dispatch_api.Items.Stock.{
  add_stock, sub_stock, item_lock, increment_item_stock, decrement_item_stock, member, rows_by_ids,
  find_item,
}

-- No stock operation is under way: the lock of no item is held.
abbrev pub FreeItems : World → Type 0
FreeItems w = (i : ℕ) → is_held (item_lock i) w.held ≡ false

abbrev pub stock_of : ℕ → Db → Option ℤ
stock_of j db = map_option (λ (i : Item). i.stock) (find_item j db.items)

pub stock_of-add_stock :
    (i n j : ℕ) (db : Db)
    → stock_of j (add_stock i n db)
      ≡ (if i == j then map_option (λ s. s +ℤ pos n) (stock_of j db) else stock_of j db)
stock_of-add_stock i n j db = ground (
  arith,
  find-modify_where (λ (x : Item). x.id) (λ x. record x { stock = x.stock +ℤ pos n }) db.items i j
      (λ x. refl),
)

pub stock_of-sub_stock :
    (i n j : ℕ) (db : Db)
    → stock_of j (sub_stock i n db)
      ≡ (if i == j then map_option (λ s. s -ℤ pos n) (stock_of j db) else stock_of j db)
stock_of-sub_stock i n j db = ground (
  arith,
  find-modify_where (λ (x : Item). x.id) (λ x. record x { stock = x.stock -ℤ pos n }) db.items i j
      (λ x. refl),
)

-- An increment commits at once, whatever transaction it is called in.
pub increment_item_stock_lem :
    (item : Item) (n : ℕ) (w : World)
    → is_held (item_lock item.id) w.held ≡ false
    → increment_item_stock item n w
      ≡ (ok tt, record w { committed = add_stock item.id n w.committed })
unfolding increment_item_stock lock_and_transaction
increment_item_stock_lem item n w free = ground (arith)

-- So does a decrement that passes its test.
pub decrement_item_stock_lem :
    (item : Item) (n : ℕ) (w : World)
    → ltb_ℤ item.stock (pos n) ≡ false
    → is_held (item_lock item.id) w.held ≡ false
    → decrement_item_stock item n w
      ≡ (ok tt, record w { committed = sub_stock item.id n w.committed })
unfolding decrement_item_stock lock_and_transaction
decrement_item_stock_lem item n w enough free = ground (arith)

find-keep :
    (p : Item → Bool) (xs : List Item) (j : ℕ) {r : Item}
    → find_item j xs ≡ some r
    → p r ≡ true
    → find_item j (keep p xs) ≡ some r
find-keep p [] j h q = absurd (ground arith)
find-keep p (x ∷ xs) j {r} h q = ground (arith, find-keep p xs j {r = r})

-- A live row is in the catalogue that is read for ids that hold its own.
pub find_item-rows_by_ids :
    (ids : List ℕ) (db : Db) (j : ℕ) (i : Item)
    → find_item j db.items ≡ some i
    → is_live i.deleted_at ≡ true
    → member j ids ≡ true
    → find_item j (rows_by_ids ids db) ≡ some i
find_item-rows_by_ids ids db j i found live here =
    find-keep (λ x. is_live x.deleted_at && member x.id ids) db.items j found
      (ground (arith, key-find (λ (x : Item). x.id) db.items j {r = i}))
