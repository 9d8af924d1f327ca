-- ===== src/Cache/Keyed.antt =====
-- Keys of the cache that are compared with a third one (src/shared/modules/cache).
use dispatch_api.Prelude.{ℕ, ◌+◌, ◌≡◌, Bool, true, false, ◌&&◌, ◌==◌, ltb, arith}
use dispatch_api.Cache.Ttl
use dispatch_api.World.{CacheKey, cache_eq, space_code}

-- Two keys that are equal to a third.
pub same_pair :
    (a a' b b' c c' : ℕ)
    → ((a == b) && (a' == b')) ≡ true
    → ((c == b) && (c' == b')) ≡ ((c == a) && (c' == a'))
same_pair a a' b b' c c' h = ground arith

pub cache_eq_trans : (k j x : CacheKey) → cache_eq k x ≡ true → cache_eq j x ≡ cache_eq j k
cache_eq_trans k j x h =
    same_pair (space_code k.space) k.id (space_code x.space) x.id (space_code j.space) j.id h

pub swap : (a a' b b' : ℕ) → ((a == b) && (a' == b')) ≡ true → ((b == a) && (b' == a')) ≡ true
swap a a' b b' h = ground arith

pub cache_eq_sym : (k j : CacheKey) → cache_eq j k ≡ true → cache_eq k j ≡ true
cache_eq_sym k j h = swap (space_code j.space) j.id (space_code k.space) k.id h

pub same_space :
    (a b c d e : ℕ) (f : Bool)
    → (a == b) ≡ true
    → (((a == c) && (d == e)) && f) ≡ true
    → (b == c) ≡ true
same_space a b c d e f hit at_j = ground arith

pub other_space :
    (a b c d e : ℕ) (f : Bool)
    → (a == b) ≡ false
    → (b == c) ≡ true
    → (((a == c) && (d == e)) && f) ≡ false
other_space a b c d e f miss inside = ground arith

pub later : (now ttl : ℕ) → ltb 0 ttl ≡ true → ltb now (now + Ttl.micros ttl) ≡ true
later now ttl h = ground arith

pub and_true : (a b : Bool) → a ≡ true → b ≡ true → (a && b) ≡ true
and_true a b h k = ground arith

pub and_false : (a b : Bool) → a ≡ false → (a && b) ≡ false
and_false a b h = ground arith

pub and_right : (a b : Bool) → (a && b) ≡ true → b ≡ true
and_right a b h = ground arith

pub and_left : (a b : Bool) → (a && b) ≡ true → a ≡ true
and_left a b h = ground arith
