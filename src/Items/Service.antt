-- ===== src/Items/Service.antt =====
-- The catalogue operations of src/modules/items/items.service.ts and the filter of
-- item.repository.ts, with their cache.
use dispatch_api.Prelude.{ℕ, ◌==◌, Option, none, some, [], ◌∷◌, ◌++◌, find, upsert, or_else}
use dispatch_api.Entities.{Item, Db, only_live}
use dispatch_api.Dtos.{CreateItem, UpdateItem, ItemQuery, ItemResponse, CacheValue, item_value}
use dispatch_api.World.{
  Env, item_create, item_update, item_remove, CacheKey, item_create_once, item_find_all,
  item_find_one, item_not_found, M, Void, pure, gets, query, or_raise, write, fresh, ◌>>=◌, ◌>>◌,
}
use dispatch_api.Guard.{lock_and_transaction}
use dispatch_api.Cache.{get, set, delete_bulk, get_or_execute, return_or}
use dispatch_api.Cache.Ttl

-- EntityMapper.map(item, ItemResponseDto)
abbrev pub to_item_response : Item → ItemResponse
to_item_response i = record {
  id = i.id;
  name = i.name;
  description = i.description;
  stock = i.stock;
  price = i.price;
  price_payment_id = i.price_payment_id;
  created_at = i.created_at;
}

-- EntityMapper.map(item, PublicItemResponseDto)
abbrev pub to_public_item : Item → ItemResponse
to_public_item i = record (to_item_response i) { price_payment_id = none }

abbrev pub one_key : ℕ → CacheKey
one_key id = record { space = item_find_one; id = id }

abbrev pub all_key : Env → ItemQuery → CacheKey
all_key env q = record { space = item_find_all; id = env.stringify q }

abbrev pub item_by_id : ℕ → Db → Option Item
item_by_id id db = only_live (λ (i : Item). i.deleted_at) (find (λ i. i.id == id) db.items)

abbrev pub get_item_or_throw : ℕ → M Item
get_item_or_throw id = do found ← query (item_by_id id); or_raise found item_not_found

-- publicFindOne and adminFindOne share the cache key and differ in what they map the row to.
unfoldable pub find_one : (Item → ItemResponse) → ℕ → M CacheValue
unfolding get set
find_one map_row id = do
  cached ← get (one_key id)
  return_or cached (do
    item ← get_item_or_throw id
    let response = item_value (map_row item)
    set (one_key id) response (some Ttl.list)
    pure response)

unfoldable pub public_find_one : ℕ → M CacheValue
unfolding find_one
public_find_one = find_one to_public_item

unfoldable pub admin_find_one : ℕ → M CacheValue
unfolding find_one
admin_find_one = find_one to_item_response

-- _adminCreate
unfoldable pub admin_create_work : CreateItem → M CacheValue
unfolding delete_bulk
admin_create_work dto = do
  id ← fresh
  now ← gets (λ w. w.now)
  let item : Item = record {
    id = id;
    created_at = now;
    deleted_at = none;
    name = dto.name;
    description = dto.description;
    stock = dto.stock;
    price = dto.price;
    price_payment_id = dto.price_payment_id;
  }
  write (λ db. record db { items = db.items ++ (item ∷ []) })
  delete_bulk [] (item_find_all ∷ [])
  pure (item_value (to_item_response item))

unfoldable pub admin_create : CreateItem → ℕ → M CacheValue
admin_create dto key =
    lock_and_transaction (record { space = item_create; id = key })
      (get_or_execute (record { space = item_create_once; id = key }) (admin_create_work dto))

-- `Object.assign(item, dto)`
abbrev pub assign_item : UpdateItem → Item → Item
assign_item dto i = record i {
  name = or_else dto.name i.name;
  description = or_else dto.description i.description;
  stock = or_else dto.stock i.stock;
  price = or_else dto.price i.price;
  price_payment_id = elim dto.price_payment_id [ none ↦ i.price_payment_id | some p ↦ some p ];
}

abbrev pub put_item : Item → Db → Db
put_item i db = record db { items = upsert (λ x. x.id == i.id) i db.items }

-- _adminUpdate
unfoldable pub admin_update_work : ℕ → UpdateItem → M ItemResponse
unfolding delete_bulk
admin_update_work id dto = do
  item ← get_item_or_throw id
  let saved = assign_item dto item
  write (put_item saved)
  delete_bulk (one_key id ∷ []) (item_find_all ∷ [])
  pure (to_item_response saved)

unfoldable pub admin_update : ℕ → UpdateItem → M ItemResponse
admin_update id dto =
    lock_and_transaction (record { space = item_update; id = id }) (admin_update_work id dto)

-- _adminRemove
unfoldable pub admin_remove_work : ℕ → M Void
unfolding delete_bulk
admin_remove_work id = do
  item ← get_item_or_throw id
  now ← gets (λ w. w.now)
  write (put_item (record item { deleted_at = some now }))
  delete_bulk (one_key id ∷ []) (item_find_all ∷ [])

unfoldable pub admin_remove : ℕ → M Void
admin_remove id =
    lock_and_transaction (record { space = item_remove; id = id }) (admin_remove_work id)
