-- ===== src/Items/Cached.antt =====
-- What the cache of src/modules/items/items.service.ts gives to the readers of one item.
use dispatch_api.Prelude.{
  ℕ, ◌+◌, ◌==◌, ◌≡◌, refl, Bool, true, false, not, ltb, ◌&&◌, Option, none, some, find, keep, List,
  [], ◌∷◌, arith, find-upsert, key-find,
}
use dispatch_api.Entities.{Item}
use dispatch_api.Dtos.{UpdateItem, CacheValue, item_value}
use dispatch_api.World.{
  World, CacheEntry, CacheKey, item_update, item_find_all, cache_eq_refl, space_code, ok,
}
use dispatch_api.Guard.{is_held, lock, transaction, lock_and_transaction}
use dispatch_api.Cache.{get, set, delete, delete_bulk, delete_pattern, is_fresh, has_key, value_of}
use dispatch_api.Cache.Replay.{find-upsert_fresh}
use dispatch_api.Cache.Ttl
use dispatch_api.Items.Service.{
  one_key, item_by_id, find_one, public_find_one, admin_find_one, to_item_response, to_public_item,
  assign_item, admin_update, admin_update_work,
}

-- What the cache holds of an item.
abbrev pub cached_item : ℕ → World → Option CacheValue
cached_item id w = value_of (find (λ e. has_key (one_key id) e && is_fresh w.now e) w.cache)

later : (now : ℕ) → ltb now (now + Ttl.micros Ttl.list) ≡ true
later now = ground arith

-- The admin's and the public endpoint keep an item under the same key: after an admin has read
-- one that is not in the cache, outside of a transaction, the public gets what the admin got,
-- with the price id of the gateway that its own mapping leaves out.
pub public_reads_admin_entry :
    (id : ℕ) (w : World) (i : Item)
    → cached_item id w ≡ none
    → item_by_id id w.committed ≡ some i
    → w.tx ≡ none
    → (public_find_one id (admin_find_one id w).1).0 ≡ ok (item_value (to_item_response i))
unfolding public_find_one admin_find_one find_one get set
public_reads_admin_entry id w i cold found outside =
    let e : CacheEntry = record {
      key = one_key id;
      value = item_value (to_item_response i);
      expires_at = w.now + Ttl.micros Ttl.list;
    } in
    ground (
      arith,
      later w.now,
      cache_eq_refl (one_key id),
      find-upsert_fresh (one_key id) w.now e w.cache (cache_eq_refl (one_key id)) (later w.now),
    )

find-delete :
    (k : CacheKey) (now : ℕ) (es : List CacheEntry)
    → find (λ e. has_key k e && is_fresh now e) (keep (λ e. not (has_key k e)) es) ≡ none
find-delete k now [] = refl
find-delete k now (e ∷ es) = ground (arith, find-delete k now es)

find-keep-none :
    (p q : CacheEntry → Bool) (es : List CacheEntry) → find p es ≡ none → find p (keep q es) ≡ none
find-keep-none p q [] absent = refl
find-keep-none p q (e ∷ es) absent = ground (arith, find-keep-none p q es)

-- An update of an item, outside of a transaction and with its lock free, is seen by the next
-- reader, whatever the cache held of the item before.
pub update_is_read :
    (id : ℕ) (dto : UpdateItem) (w : World) (i : Item)
    → item_by_id id w.committed ≡ some i
    → w.tx ≡ none
    → is_held (record { space = item_update; id = id }) w.held ≡ false
    → (public_find_one id (admin_update id dto w).1).0
      ≡ ok (item_value (to_public_item (assign_item dto i)))
unfolding public_find_one find_one get set admin_update lock_and_transaction lock transaction
    admin_update_work delete_bulk delete delete_pattern
update_is_read id dto w i found outside free =
    let k = one_key id in
    ground (
      arith,
      key-find (λ (x : Item). x.id) w.committed.items id {r = i},
      find-upsert (λ (x : Item). x.id) (assign_item dto i) w.committed.items id,
      find-delete k w.now w.cache,
      find-keep-none (λ e. has_key k e && is_fresh w.now e)
          (λ e. not (space_code item_find_all == space_code e.key.space))
          (keep (λ e. not (has_key k e)) w.cache) (find-delete k w.now w.cache),
    )
