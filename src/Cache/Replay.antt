-- ===== src/Cache/Replay.antt =====
-- What the idempotency of src/shared/modules/cache/idempotency.service.ts promises.
use dispatch_api.Prelude.{
  ℕ, ◌+◌, ◌*◌, ◌≡◌, ◌∙◌, Bool, none, true, ltb, ◌&&◌, some, find, upsert, List, [], ◌∷◌, arith,
}
use dispatch_api.Dtos.{CacheValue}
use dispatch_api.World.{World, CacheEntry, CacheKey, cache_eq_refl, ok, M}
use dispatch_api.Cache.{get, set, get_or_execute, is_fresh, has_key}
use dispatch_api.Cache.Ttl

-- An entry that has been set is found until its time has come.
pub find-upsert_fresh :
    (k : CacheKey) (now : ℕ) (e : CacheEntry) (es : List CacheEntry)
    → has_key k e ≡ true
    → is_fresh now e ≡ true
    → find (λ x. has_key k x && is_fresh now x) (upsert (has_key k) e es) ≡ some e
find-upsert_fresh k now e [] same fresh = ground arith
find-upsert_fresh k now e (x ∷ xs) same fresh =
    ground (arith, find-upsert_fresh k now e xs same fresh)

-- The entry of a result that is stored at a time.
abbrev pub stored : CacheKey → CacheValue → ℕ → CacheEntry
stored key v now = record { key = key; value = v; expires_at = now + Ttl.micros Ttl.idempotency }

find_fresh :
    (p q : CacheEntry → Bool) (e : CacheEntry) (es : List CacheEntry)
    → find p es ≡ some e
    → q e ≡ true
    → find (λ x. p x && q x) es ≡ some e
find_fresh p q e [] found fresh = absurd (ground arith)
find_fresh p q e (x ∷ es) found fresh = ground (arith, find_fresh p q e es)

find-upsert_key :
    (k : CacheKey) (e : CacheEntry) (es : List CacheEntry)
    → has_key k e ≡ true
    → find (has_key k) (upsert (has_key k) e es) ≡ some e
find-upsert_key k e [] same = ground arith
find-upsert_key k e (x ∷ xs) same = ground (arith, find-upsert_key k e xs same)

-- The first request under a key that returns has its result stored for 24 hours.
executes_and_stores :
    (key : CacheKey) (fn : M CacheValue) (w : World) (v : CacheValue)
    → find (λ e. has_key key e && is_fresh w.now e) w.cache ≡ none
    → (get_or_execute key fn w).0 ≡ ok v
    → find (has_key key) (get_or_execute key fn w).1.cache ≡ some (stored key v (fn w).1.now)
unfolding get_or_execute get set
executes_and_stores key fn w v first ran = ground (
  arith,
  first,
  find-upsert_key key (stored key v (fn w).1.now) (fn w).1.cache (cache_eq_refl key),
)

-- A request under a new key that has returned, at some time, is answered from what is stored: whenever one
-- is sent under the same key within 24 hours of that time, whatever else has happened to the state, as
-- long as the entry of the key is the one that was left, it gets the same result and runs nothing, whatever it
-- would do.
pub get_or_execute_replays :
    (key : CacheKey) (fn other : M CacheValue) (w later : World) (v : CacheValue)
    → find (λ e. has_key key e && is_fresh w.now e) w.cache ≡ none
    → (get_or_execute key fn w).0 ≡ ok v
    → find (has_key key) later.cache ≡ find (has_key key) (get_or_execute key fn w).1.cache
    → ltb later.now ((fn w).1.now + 1000 * (24 * 60 * 60 * 1000)) ≡ true
    → get_or_execute key other later ≡ (ok v, later)
unfolding get_or_execute get
get_or_execute_replays key fn other w later v first ran kept soon =
    let e = stored key v (fn w).1.now in
    let there = kept ∙ executes_and_stores key fn w v first ran in
    ground (arith, find_fresh (has_key key) (is_fresh later.now) e later.cache there soon)
