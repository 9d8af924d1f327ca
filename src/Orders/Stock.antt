-- ===== src/Orders/Stock.antt =====
-- What the lines of a new order take from the stock (decrementItemsStock of orders.service.ts).
use dispatch_api.Prelude.{
  ℕ, ◌+◌, ◌==◌, ◌≡◌, refl, ◌∙◌, ap, Bool, true, false, not, ◌&&◌, Option, none, some, List, [], ◌∷◌,
  map, exists, Option-cases, inl, inr, if◌then◌else◌, key-find, arith,
}
use dispatch_api.Prelude.Int.{ℤ, pos, ltb_ℤ, ◌-ℤ◌, int_laws}
use dispatch_api.Entities.{Item, Db}
use dispatch_api.Dtos.{CreateOrderItem}
use dispatch_api.World.{World, ok, item_not_found, raise_if, for_each}
use dispatch_api.Items.{
  find_item, sub_stock, rows_by_ids, validate_and_get_catalog_items, find_many_by_ids,
}
use dispatch_api.Items.Levels.{FreeItems, stock_of, stock_of-sub_stock, decrement_item_stock_lem}
use dispatch_api.Orders.Create.{decrement_items_stock}

-- Every line names an item of the catalogue, and asks for no more than the catalogue shows of it.
abbrev enough : Option Item → ℕ → Bool
enough none n = false
enough (some item) n = not (ltb_ℤ item.stock (pos n))

abbrev pub covers : List Item → List CreateOrderItem → Bool
covers catalog [] = true
covers catalog (l ∷ ls) = enough (find_item l.item_id catalog) l.quantity && covers catalog ls

-- The database after the lines have been taken.
abbrev pub take_all : List CreateOrderItem → Db → Db
take_all [] db = db
take_all (l ∷ ls) db = take_all ls (sub_stock l.item_id l.quantity db)

-- How much of an item the lines ask for in all.
abbrev pub ordered_of : ℕ → List CreateOrderItem → ℕ
ordered_of j [] = 0
ordered_of j (l ∷ ls) = (if l.item_id == j then l.quantity else 0) + ordered_of j ls

pub decrement_items_stock_lem :
    (ls : List CreateOrderItem) (catalog : List Item) (w : World)
    → covers catalog ls ≡ true
    → FreeItems w
    → decrement_items_stock ls catalog w ≡ (ok tt, record w { committed = take_all ls w.committed })
unfolding decrement_items_stock
decrement_items_stock_lem [] catalog w c free = refl
decrement_items_stock_lem (l ∷ ls) catalog w c free =
    elim (Option-cases (find_item l.item_id catalog)) [
      | inl gone ↦ absurd (ground arith)
      | inr (item, found) ↦ ground (
        arith,
        decrement_item_stock_lem item l.quantity w,
        free item.id,
        key-find (λ (x : Item). x.id) catalog l.item_id {r = item},
        decrement_items_stock_lem ls catalog
            (record w { committed = sub_stock l.item_id l.quantity w.committed }),
      )
    ]

-ℤ-pos : (s : ℤ) (a b : ℕ) → s -ℤ pos a -ℤ pos b ≡ s -ℤ pos (a + b)
-ℤ-pos s a b = omega int_laws

-ℤ-zero : (s : ℤ) → s -ℤ pos 0 ≡ s
-ℤ-zero s = omega int_laws

-- The stock of an item falls by what the lines ask for of it.
pub stock_of-take_all :
    (ls : List CreateOrderItem) (j : ℕ) (db : Db) (s : ℤ)
    → stock_of j db ≡ some s
    → stock_of j (take_all ls db) ≡ some (s -ℤ pos (ordered_of j ls))
stock_of-take_all [] j db s level = ground (arith, -ℤ-zero s)
stock_of-take_all (l ∷ ls) j db s level =
    let one = if l.item_id == j then l.quantity else 0 in
    stock_of-take_all ls j (sub_stock l.item_id l.quantity db) (s -ℤ pos one)
      (ground (arith, stock_of-sub_stock l.item_id l.quantity j db, -ℤ-zero s))
    ∙ ap some (-ℤ-pos s one (ordered_of j ls))

-- Only the table of items changes.
pub take_all-items :
    (ls : List CreateOrderItem) (db : Db)
    → take_all ls db ≡ record db { items = (take_all ls db).items }
take_all-items [] db = refl
take_all-items (l ∷ ls) db = take_all-items ls (sub_stock l.item_id l.quantity db)

-- A catalogue that covers the lines names the item of each.
covers-exists :
    (catalog : List Item) (ls : List CreateOrderItem) (w : World)
    → covers catalog ls ≡ true
    → for_each
        (λ id. raise_if (not (exists (λ i. i.id == id) catalog)) item_not_found)
        (map (λ (l : CreateOrderItem). l.item_id) ls)
        w
      ≡ (ok tt, w)
covers-exists catalog [] w c = refl
covers-exists catalog (l ∷ ls) w c = ground (arith, covers-exists catalog ls w)

-- The catalogue that an order is checked against.
abbrev pub catalog_for : List CreateOrderItem → Db → List Item
catalog_for ls db = rows_by_ids (map (λ (l : CreateOrderItem). l.item_id) ls) db

pub validate_lem :
    (ls : List CreateOrderItem) (w : World)
    → covers (catalog_for ls w.committed) ls ≡ true
    → validate_and_get_catalog_items (map (λ (l : CreateOrderItem). l.item_id) ls) w
      ≡ (ok (catalog_for ls w.committed), w)
unfolding validate_and_get_catalog_items find_many_by_ids
validate_lem ls w c = ground (arith, covers-exists (catalog_for ls w.committed) ls w c)
