-- ===== src/Orders/Jobs/Inventory.antt =====
-- releaseInventory gives back exactly what the lines of an order took.
use dispatch_api.Prelude.{
  ℕ, ◌+◌, ◌==◌, ◌≡◌, refl, true, false, none, some, List, [], ◌∷◌, map, Option-cases, Bool-cases,
  inl, inr, if◌then◌else◌, key-find, ap, ◌∙◌, arith,
}
use dispatch_api.Prelude.Int.{ℤ, pos, ◌+ℤ◌, int_laws}
use dispatch_api.Entities.{OrderItem, Item, Db, is_live}
use dispatch_api.World.{World, ok, for_each}
use dispatch_api.Items.{find_item, add_stock, rows_by_ids, member, find_many_by_ids}
use dispatch_api.Items.Levels.{
  FreeItems, stock_of, stock_of-add_stock, increment_item_stock_lem, find_item-rows_by_ids,
}
use dispatch_api.Orders.Store.{LoadedOrder}
use dispatch_api.Orders.Jobs.{release_line, release_inventory}

-- The database after the lines have been given back.
abbrev release_one : List Item → OrderItem → Db → Db
release_one catalog l db = elim (find_item l.item_id catalog) [
  | none ↦ db
  | some item ↦ add_stock item.id l.quantity db
]

abbrev pub release_all : List Item → List OrderItem → Db → Db
release_all catalog [] db = db
release_all catalog (l ∷ ls) db = release_all catalog ls (release_one catalog l db)

-- How much of an item the lines hold; an item may stand on several lines.
abbrev pub quantity_of : ℕ → List OrderItem → ℕ
quantity_of j [] = 0
quantity_of j (l ∷ ls) = (if l.item_id == j then l.quantity else 0) + quantity_of j ls

release_line_lem :
    (catalog : List Item) (l : OrderItem) (w : World)
    → FreeItems w
    → release_line catalog l w ≡ (ok tt, record w { committed = release_one catalog l w.committed })
release_line_lem catalog l w free = elim (Option-cases (find_item l.item_id catalog)) [
  | inl gone ↦ ground arith
  | inr (item, found) ↦ ground (arith, increment_item_stock_lem item l.quantity w (free item.id))
]

pub release_lines_lem :
    (catalog : List Item) (ls : List OrderItem) (w : World)
    → FreeItems w
    → for_each (release_line catalog) ls w
      ≡ (ok tt, record w { committed = release_all catalog ls w.committed })
release_lines_lem catalog [] w free = refl
release_lines_lem catalog (l ∷ ls) w free =
    rw (release_line_lem catalog l w free) (
      release_lines_lem catalog ls (record w { committed = release_one catalog l w.committed })
        free)

stock_of-release_one :
    (catalog : List Item) (l : OrderItem) (j : ℕ) (i : Item) (db : Db) (s : ℤ)
    → find_item j catalog ≡ some i
    → stock_of j db ≡ some s
    → stock_of j (release_one catalog l db)
      ≡ some (if l.item_id == j then s +ℤ pos l.quantity else s)
stock_of-release_one catalog l j i db s here level =
    elim (Option-cases (find_item l.item_id catalog)) [
      | inl gone ↦ ground arith
      | inr (item, found) ↦ ground (
        arith,
        stock_of-add_stock item.id l.quantity j db,
        key-find (λ (x : Item). x.id) catalog l.item_id {r = item},
      )
    ]

+ℤ-pos : (s : ℤ) (a b : ℕ) → s +ℤ pos a +ℤ pos b ≡ s +ℤ pos (a + b)
+ℤ-pos s a b = omega int_laws

+ℤ-zero : (s : ℤ) → s +ℤ pos 0 ≡ s
+ℤ-zero s = omega int_laws

-- The stock of a catalogued item rises by what the lines hold of it, whatever the other lines are.
pub stock_of-release_all :
    (catalog : List Item) (ls : List OrderItem) (j : ℕ) (i : Item) (db : Db) (s : ℤ)
    → find_item j catalog ≡ some i
    → stock_of j db ≡ some s
    → stock_of j (release_all catalog ls db) ≡ some (s +ℤ pos (quantity_of j ls))
stock_of-release_all catalog [] j i db s here level = ground (arith, +ℤ-zero s)
stock_of-release_all catalog (l ∷ ls) j i db s here level =
    let one = if l.item_id == j then l.quantity else 0 in
    stock_of-release_all catalog ls j i (release_one catalog l db) (s +ℤ pos one) here
      (stock_of-release_one catalog l j i db s here level ∙ ground (arith, +ℤ-zero s))
    ∙ ap some (+ℤ-pos s one (quantity_of j ls))

release_one-items :
    (catalog : List Item) (l : OrderItem) (db : Db)
    → release_one catalog l db ≡ record db { items = (release_one catalog l db).items }
release_one-items catalog l db = ground arith

-- Only the table of items changes.
pub release_all-items :
    (catalog : List Item) (ls : List OrderItem) (db : Db)
    → release_all catalog ls db ≡ record db { items = (release_all catalog ls db).items }
release_all-items catalog [] db = refl
release_all-items catalog (l ∷ ls) db =
    let one = release_one catalog l db in
    release_all-items catalog ls one
    ∙ ap (λ (d : Db). record d { items = (release_all catalog ls one).items })
        (release_one-items catalog l db)

-- The catalogue that releaseInventory reads for the lines of the order.
abbrev pub catalog_of : List OrderItem → Db → List Item
catalog_of ls db = rows_by_ids (map (λ (i : OrderItem). i.item_id) ls) db

pub release_inventory_lem :
    (l : LoadedOrder) (w : World)
    → FreeItems w
    → release_inventory l w ≡ (
      ok tt,
      record w { committed = release_all (catalog_of l.items w.committed) l.items w.committed },
    )
unfolding release_inventory find_many_by_ids
release_inventory_lem l w free = release_lines_lem (catalog_of l.items w.committed) l.items w free

abbrev pub ids_of : List OrderItem → List ℕ
ids_of ls = map (λ (i : OrderItem). i.item_id) ls

-- An item that stands on no line keeps its stock.
stock_of-release_all_absent :
    (catalog : List Item) (ls : List OrderItem) (j : ℕ) (db : Db)
    → member j (ids_of ls) ≡ false
    → stock_of j (release_all catalog ls db) ≡ stock_of j db
stock_of-release_all_absent catalog [] j db absent = refl
stock_of-release_all_absent catalog (l ∷ ls) j db absent =
    stock_of-release_all_absent catalog ls j (release_one catalog l db) (ground arith)
    ∙ elim (Option-cases (find_item l.item_id catalog)) [
      | inl gone ↦ ground arith
      | inr (item, found) ↦ ground (
        arith,
        stock_of-add_stock item.id l.quantity j db,
        key-find (λ (x : Item). x.id) catalog l.item_id {r = item},
      )
    ]

quantity_of-absent :
    (j : ℕ) (ls : List OrderItem) → member j (ids_of ls) ≡ false → quantity_of j ls ≡ 0
quantity_of-absent j [] absent = refl
quantity_of-absent j (l ∷ ls) absent = ground (arith, quantity_of-absent j ls)

-- Every live item gains what the lines hold of it.
pub stock_of-restock :
    (ls : List OrderItem) (j : ℕ) (i : Item) (db : Db)
    → find_item j db.items ≡ some i
    → is_live i.deleted_at ≡ true
    → stock_of j (release_all (catalog_of ls db) ls db) ≡ some (i.stock +ℤ pos (quantity_of j ls))
stock_of-restock ls j i db found live = elim (Bool-cases (member j (ids_of ls))) [
  | inl here ↦
      stock_of-release_all (catalog_of ls db) ls j i db i.stock
        (find_item-rows_by_ids (ids_of ls) db j i found live here) (ground arith)
  | inr absent ↦
      rw
        (
          stock_of-release_all_absent (catalog_of ls db) ls j db absent,
          quantity_of-absent j ls absent,
        )
        (ground (arith, +ℤ-zero i.stock))
]
