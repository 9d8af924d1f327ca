-- ===== src/World/Keys.antt =====
-- Lock and cache keys: the fixed part of a key as a constructor, and the id that follows it
-- (src/shared/constants/lock.key.ts, src/shared/modules/cache).
use dispatch_api.Prelude.{ℕ, ◌≡◌, Bool, true, ◌&&◌, ◌==◌, arith}

-- LOCK_KEY. The key of adminCreate of users holds the text of the function LOCK_KEY.USER.CREATE, so its fixed
-- part is one of its own.
pub data LockSpace : Type 0 where
  auth_login auth_refresh auth_logout : LockSpace
  user_create user_update user_remove user_admin_create : LockSpace
  order_create order_update order_remove : LockSpace
  item_create item_update item_remove : LockSpace
  notifications_create notifications_update notifications_remove : LockSpace
  job_execute : LockSpace

pub record LockKey : Type 0 where
  pub space : LockSpace
  pub id : ℕ

abbrev pub lock_code : LockSpace → ℕ
lock_code auth_login = 0
lock_code auth_refresh = 1
lock_code auth_logout = 2
lock_code user_create = 3
lock_code user_update = 4
lock_code user_remove = 5
lock_code order_create = 6
lock_code order_update = 7
lock_code order_remove = 8
lock_code item_create = 9
lock_code item_update = 10
lock_code item_remove = 11
lock_code notifications_create = 12
lock_code notifications_update = 13
lock_code notifications_remove = 14
lock_code job_execute = 15
lock_code user_admin_create = 16

abbrev pub lock_eq : LockKey → LockKey → Bool
lock_eq a b = (lock_code a.space == lock_code b.space) && (a.id == b.id)

-- ITEM_KEY, ORDER_KEY, PAYMENT_KEY, USER_KEY, EFFECT_KEY and AUTH_KEY
pub data CacheSpace : Type 0 where
  order_create_once order_job_once payment_job_once user_job_once effect_job_once : CacheSpace
  user_create_once user_admin_create_once : CacheSpace
  item_create_once item_find_all item_find_one blacklist : CacheSpace

pub record CacheKey : Type 0 where
  pub space : CacheSpace
  pub id : ℕ

abbrev pub space_code : CacheSpace → ℕ
space_code order_create_once = 0
space_code order_job_once = 1
space_code payment_job_once = 2
space_code user_job_once = 3
space_code effect_job_once = 4
space_code item_create_once = 5
space_code item_find_all = 6
space_code item_find_one = 7
space_code blacklist = 8
space_code user_create_once = 9
space_code user_admin_create_once = 10

abbrev pub cache_eq : CacheKey → CacheKey → Bool
cache_eq a b = (space_code a.space == space_code b.space) && (a.id == b.id)

pub lock_eq_refl : (k : LockKey) → lock_eq k k ≡ true
lock_eq_refl k = ground arith

pub cache_eq_refl : (k : CacheKey) → cache_eq k k ≡ true
cache_eq_refl k = ground arith
