-- ===== src/Items/Listed.antt =====
-- A listing after a change of the catalogue (src/modules/items/items.service.ts).
use dispatch_api.Prelude.{
  ℕ, Bool, true, false, not, ◌≡◌, refl, ap, ◌&&◌, ◌==◌, none, upsert, ◌+◌, List, [], ◌∷◌, ◌++◌,
  find, keep, arith,
}
use dispatch_api.Entities.{Item}
use dispatch_api.Dtos.{CreateItem, ItemQuery, item_page, item_value}
use dispatch_api.World.{
  World, CacheEntry, CacheKey, item_find_all, item_create, item_create_once, space_code, ok,
}
use dispatch_api.Guard.{is_held, lock, transaction, lock_and_transaction}
use dispatch_api.Cache.{
  get, set, delete, delete_bulk, delete_pattern, get_or_execute, has_key, is_fresh,
}
use dispatch_api.Cache.Ttl
use dispatch_api.Pagination.{map_page, is_refused, limit_of, cursor_limit}
use dispatch_api.Items.Service.{
  admin_create, admin_create_work, all_key, to_public_item, to_item_response,
}
use dispatch_api.Items.Listing.{filter_items, public_find_all, find_all}

-- The row of a new item.
abbrev pub new_item : CreateItem → ℕ → ℕ → Item
new_item dto id now = record {
  id = id;
  created_at = now;
  deleted_at = none;
  name = dto.name;
  description = dto.description;
  stock = dto.stock;
  price = dto.price;
  price_payment_id = dto.price_payment_id;
}

find-delete_pattern :
    (k : CacheKey) (now : ℕ) (es : List CacheEntry)
    → find
        (λ e. has_key k e && is_fresh now e)
        (keep (λ e. not (space_code k.space == space_code e.key.space)) es)
      ≡ none
find-delete_pattern k now [] = refl
find-delete_pattern k now (e ∷ es) = ground (arith, find-delete_pattern k now es)

-- An entry is not found under another key.
find-upsert_other :
    (p q : CacheEntry → Bool) (e : CacheEntry) (es : List CacheEntry)
    → ((x : CacheEntry) → q x ≡ true → p x ≡ false)
    → p e ≡ false
    → find p (upsert q e es) ≡ find p es
find-upsert_other p q e [] apart other = ground arith
find-upsert_other p q e (x ∷ xs) apart other =
    ground (arith, apart x, find-upsert_other p q e xs apart other)

spaces_apart :
    (m n i j a b : ℕ) → (m == a) && (i == b) ≡ true → m == n ≡ false → (n == a) && (j == b) ≡ false
spaces_apart m n i j a b same other = ground arith

-- After an item has been created, by a request that is the first with its key, outside of a
-- transaction and with its lock free, every listing that the database does not refuse is read from the database again, whatever the
-- cache held: it has the rows of before and the new one to choose from.
pub create_is_listed :
    (dto : CreateItem) (key : ℕ) (q : ItemQuery) (w : World)
    → find
        (λ e. has_key (record { space = item_create_once; id = key }) e && is_fresh w.now e)
        w.cache
      ≡ none
    → w.tx ≡ none
    → is_refused (limit_of (cursor_limit q.cursor)) ≡ false
    → is_held (record { space = item_create; id = key }) w.held ≡ false
    → let item = new_item dto w.next_id w.now in
      let (r, w') = admin_create dto key w in
      (r ≡ ok (item_value (to_item_response item)))
      × ((public_find_all q w').0
          ≡ ok (
              item_page (
                map_page to_public_item (
                  filter_items w.env q
                    (record w.committed { items = w.committed.items ++ (item ∷ []) })))))
unfolding admin_create admin_create_work lock_and_transaction lock transaction get_or_execute get
    set delete_bulk delete delete_pattern public_find_all find_all
create_is_listed dto key q w first outside served free =
    let k = all_key w.env q in
    let rest = keep (λ e. not (space_code item_find_all == space_code e.key.space)) w.cache in
    let e : CacheEntry = record {
      key = record { space = item_create_once; id = key };
      value = item_value (to_item_response (new_item dto w.next_id w.now));
      expires_at = w.now + Ttl.micros Ttl.idempotency;
    } in
    (
      ground arith,
      ground (
        arith,
        find-upsert_other (λ x. has_key k x && is_fresh w.now x) (has_key e.key) e rest
            (λ x same.
              ap (λ b. b && is_fresh w.now x)
                (spaces_apart 5 6 key k.id (space_code x.key.space) x.key.id same refl))
            refl,
        find-delete_pattern k w.now w.cache,
      ),
    )
