-- ===== src/Items/Listing.antt =====
-- The listings of src/modules/items/items.service.ts and the filter of item.repository.ts.
use dispatch_api.Prelude.{Bool, ◌&&◌, some, keep, truthy}
use dispatch_api.Entities.{Item, Db, is_live}
use dispatch_api.Dtos.{ItemQuery, ItemResponse, PagCursorResult, CacheValue, item_page}
use dispatch_api.World.{Env, M, pure, gets, query, ◌>>=◌, ◌>>◌}
use dispatch_api.Cache.{get, set, return_or}
use dispatch_api.Cache.Ttl
use dispatch_api.Pagination.{filter_page, map_page, is_like, limit_of, cursor_limit, require_limit}
use dispatch_api.Pagination.Newest.{newest_first}
use dispatch_api.Items.Service.{all_key, to_item_response, to_public_item}

abbrev pub matches : Env → ItemQuery → Item → Bool
matches env q i =
    is_live i.deleted_at
    && (is_like env i.name (truthy q.name) && is_like env i.description (truthy q.description))

-- ItemRepository.filter
unfoldable pub filter_items : Env → ItemQuery → Db → PagCursorResult Item
filter_items env q db =
    filter_page (λ (i : Item). i.created_at) q.cursor
      (newest_first (λ (i : Item). i.created_at) (λ i. i.id) (keep (matches env q) db.items))

-- publicFindAll and adminFindAll share the cache key and differ in what they map a row to.
unfoldable pub find_all : (Item → ItemResponse) → ItemQuery → M CacheValue
unfolding get set filter_items
find_all map_row q = do
  env ← gets (λ w. w.env)
  cached ← get (all_key env q)
  return_or cached (do
    require_limit (limit_of (cursor_limit q.cursor))
    page ← query (λ db. map_page map_row (filter_items env q db))
    set (all_key env q) (item_page page) (some Ttl.list)
    pure (item_page page))

unfoldable pub public_find_all : ItemQuery → M CacheValue
unfolding find_all
public_find_all = find_all to_public_item

unfoldable pub admin_find_all : ItemQuery → M CacheValue
unfolding find_all
admin_find_all = find_all to_item_response
