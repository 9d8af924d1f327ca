-- ===== src/Cache.antt =====
-- src/shared/modules/cache: cache.service.ts over Redis, and idempotency.service.ts.
pub mod Ttl
pub mod Replay
pub mod Keyed
use dispatch_api.Prelude.{
  ℕ, ◌+◌, Bool, Option, none, some, or_else, ltb, not, ◌&&◌, ◌==◌, keep, find, upsert, List, [],
  ◌∷◌,
}
use dispatch_api.Dtos.{CacheValue}
use dispatch_api.World.{
  World, CacheEntry, CacheKey, CacheSpace, cache_eq, space_code, M, Void, pure, gets, modify, ◌>>=◌,
  ◌>>◌, for_each,
}

-- An entry is gone when its time to live has passed.
abbrev pub is_fresh : ℕ → CacheEntry → Bool
is_fresh now e = ltb now e.expires_at

abbrev pub has_key : CacheKey → CacheEntry → Bool
has_key k e = cache_eq k e.key

abbrev pub value_of : Option CacheEntry → Option CacheValue
value_of none = none
value_of (some e) = some e.value

-- CacheService.get
unfoldable pub get : CacheKey → M (Option CacheValue)
get key = gets (λ w. value_of (find (λ e. has_key key e && is_fresh w.now e) w.cache))

-- CacheService.set; without a `ttl` the one of the configuration holds.
unfoldable pub set : CacheKey → CacheValue → Option ℕ → M Void
set key value ttl = modify (λ w. record w {
  cache =
      upsert (has_key key)
        (record {
          key = key;
          value = value;
          expires_at = w.now + Ttl.micros (or_else ttl (or_else w.env.cache_ttl Ttl.default_ttl));
        })
        w.cache;
})

-- CacheService.delete
unfoldable pub delete : CacheKey → M Void
delete key = modify (λ w. record w { cache = keep (λ e. not (has_key key e)) w.cache })

-- CacheService.deletePattern, for the pattern `<fixed part>:*`
unfoldable pub delete_pattern : CacheSpace → M Void
delete_pattern space =
    modify (λ w. record w {
      cache = keep (λ e. not (space_code space == space_code e.key.space)) w.cache;
    })

-- CacheService.deleteBulk
unfoldable pub delete_bulk : List CacheKey → List CacheSpace → M Void
unfolding delete delete_pattern
delete_bulk keys patterns = do for_each delete keys; for_each delete_pattern patterns

abbrev pub return_or : Option CacheValue → M CacheValue → M CacheValue
return_or none m = m
return_or (some v) m = pure v

-- IdempotencyService.getOrExecute
unfoldable pub get_or_execute : CacheKey → M CacheValue → M CacheValue
unfolding get set
get_or_execute key fn = do
  cached ← get key
  return_or cached (do result ← fn; set key result (some Ttl.idempotency); pure result)
