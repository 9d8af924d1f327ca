-- ===== src/Items/Stock.antt =====
-- The stock operations of items.service.ts, and item.repository.ts under them.
use dispatch_api.Prelude.{
  ℕ, Bool, false, ◌&&◌, ◌||◌, ◌==◌, List, [], ◌∷◌, Option, keep, find, exists, not, modify_where,
}
use dispatch_api.Prelude.Int.{pos, ltb_ℤ, ◌+ℤ◌, ◌-ℤ◌}
use dispatch_api.Entities.{Item, Db, is_live}
use dispatch_api.World.{
  LockKey, item_update, insufficient_stock, item_not_found, M, Void, pure, gets, raise_if, write,
  for_each, ◌>>=◌, ◌>>◌,
}
use dispatch_api.Guard.{lock_and_transaction}

abbrev pub member : ℕ → List ℕ → Bool
member n [] = false
member n (m ∷ ms) = m == n || member n ms

-- The rows that `findBy({ id: In(ids) })` selects.
abbrev pub rows_by_ids : List ℕ → Db → List Item
rows_by_ids ids db = keep (λ i. is_live i.deleted_at && member i.id ids) db.items

-- ItemRepository.findManyByIds reads through the repository's own connection, so it sees what is
-- committed, and not the writes of the transaction that is open.
unfoldable pub find_many_by_ids : List ℕ → M (List Item)
find_many_by_ids ids = gets (λ w. rows_by_ids ids w.committed)

abbrev pub add_stock : ℕ → ℕ → Db → Db
add_stock id n db = record db {
  items = modify_where (λ i. i.id == id) (λ i. record i { stock = i.stock +ℤ pos n }) db.items;
}

abbrev pub sub_stock : ℕ → ℕ → Db → Db
sub_stock id n db = record db {
  items = modify_where (λ i. i.id == id) (λ i. record i { stock = i.stock -ℤ pos n }) db.items;
}

abbrev pub item_lock : ℕ → LockKey
item_lock id = record { space = item_update; id = id }

-- ItemsService.decrementItemStock: the test is on the row that the caller has read before.
unfoldable pub decrement_item_stock : Item → ℕ → M Void
decrement_item_stock item quantity = do
  raise_if (ltb_ℤ item.stock (pos quantity)) (insufficient_stock item.name)
  lock_and_transaction (item_lock item.id) (write (sub_stock item.id quantity))

-- ItemsService.incrementItemStock
unfoldable pub increment_item_stock : Item → ℕ → M Void
increment_item_stock item quantity =
    lock_and_transaction (item_lock item.id) (write (add_stock item.id quantity))

abbrev pub find_item : ℕ → List Item → Option Item
find_item id items = find (λ i. i.id == id) items

-- ItemsService.validateAndGetCatalogItems
unfoldable pub validate_and_get_catalog_items : List ℕ → M (List Item)
unfolding find_many_by_ids
validate_and_get_catalog_items ids = do
  catalog ← find_many_by_ids ids
  for_each (λ id. raise_if (not (exists (λ i. i.id == id) catalog)) item_not_found) ids
  pure catalog
