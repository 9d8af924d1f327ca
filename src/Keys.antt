-- ===== src/Keys.antt =====
-- The texts of the keys: src/shared/constants/lock.key.ts, src/shared/modules/cache/utils/cache-key.factory.ts and
-- src/shared/modules/cache/constants. The text of an id is a parameter.
pub mod Reading
pub mod Distinct
use Prim.Native.Char.{Char, code}
use dispatch_api.Prelude.{
  ℕ, Bool, true, false, ◌&&◌, ◌||◌, ◌==◌, List, [], ◌∷◌, String, joined, if◌then◌else◌,
}
use dispatch_api.World.{
  LockSpace, LockKey, auth_login, auth_refresh, auth_logout, user_create, user_update, user_remove,
  user_admin_create, order_create, order_update, order_remove, item_create, item_update,
  item_remove, notifications_create, notifications_update, notifications_remove, job_execute,
  CacheSpace, CacheKey, order_create_once, order_job_once, payment_job_once, user_job_once,
  effect_job_once, user_create_once, user_admin_create_once, item_create_once, item_find_all,
  item_find_one, blacklist,
}

-- The parts of a key before its id, each with a colon behind it.
abbrev pub path_text : List String → String → String
path_text [] id = id
path_text (p ∷ ps) id = joined p (path_text ps id)

-- LOCK_KEY. The key of adminCreate begins with the text of the function LOCK_KEY.USER.CREATE.
abbrev pub lock_path : LockSpace → List String
lock_path auth_login = "auth-login" ∷ []
lock_path auth_refresh = "auth-refresh" ∷ []
lock_path auth_logout = "auth-logout" ∷ []
lock_path user_create = "user-create" ∷ []
lock_path user_update = "user-update" ∷ []
lock_path user_remove = "user-remove" ∷ []
lock_path user_admin_create = "(uniqueId) => `user-create:${uniqueId}`" ∷ []
lock_path order_create = "order-create" ∷ []
lock_path order_update = "order-update" ∷ []
lock_path order_remove = "order-remove" ∷ []
lock_path item_create = "item-create" ∷ []
lock_path item_update = "item-update" ∷ []
lock_path item_remove = "item-remove" ∷ []
lock_path notifications_create = "notifications-create" ∷ []
lock_path notifications_update = "notifications-update" ∷ []
lock_path notifications_remove = "notifications-remove" ∷ []
lock_path job_execute = "job-execute" ∷ []

-- CacheKeyFactory.PREFIX
abbrev pub prefix : String
prefix = "api"

-- CacheKeyFactory.idempotency
abbrev pub idempotency : String → String → List String
idempotency resource operation = prefix ∷ "idempotency" ∷ resource ∷ operation ∷ []

-- CacheKeyFactory.cache
abbrev pub cache : String → String → List String
cache resource method = prefix ∷ "cache" ∷ resource ∷ method ∷ []

-- ORDER_KEY, PAYMENT_KEY, USER_KEY, EFFECT_KEY, ITEM_KEY and AUTH_KEY, as the services call them
abbrev pub cache_path : CacheSpace → List String
cache_path order_create_once = idempotency "order" "create"
cache_path order_job_once = idempotency "order" "job"
cache_path payment_job_once = idempotency "payment" "job"
cache_path user_job_once = idempotency "user" "job"
cache_path effect_job_once = idempotency "effect" "job"
cache_path user_create_once = idempotency "user" "publicCreate"
cache_path user_admin_create_once = idempotency "user" "adminCreate"
cache_path item_create_once = idempotency "item" "create"
cache_path item_find_all = cache "item" "findAll"
cache_path item_find_one = cache "item" "findOne"
cache_path blacklist = prefix ∷ "blacklist" ∷ []

module _ (text_of : ℕ → String) where
  abbrev pub lock_text : LockKey → String
  lock_text k = path_text (lock_path k.space) (text_of k.id)

  abbrev pub cache_text : CacheKey → String
  cache_text k = path_text (cache_path k.space) (text_of k.id)

-- CacheKeyFactory.cachePattern: a star stands for the id.
abbrev pub cache_pattern : String → String → String
cache_pattern resource method = path_text (cache resource method) "*"

-- ITEM_KEY.CACHE_FIND_ALL_PATTERN
abbrev pub item_find_all_pattern : String
item_find_all_pattern = cache_pattern "item" "findAll"

abbrev pub star : ℕ
star = 42

abbrev pub some_suffix : (String → Bool) → String → Bool
some_suffix p String.[] = p String.[]
some_suffix p (String.◌∷◌ c s) = p (String.◌∷◌ c s) || some_suffix p s

-- How Redis KEYS reads a pattern of plain characters and stars.
unfoldable pub glob : String → String → Bool
glob String.[] String.[] = true
glob String.[] (String.◌∷◌ d s) = false
glob (String.◌∷◌ c p) String.[] = code c == star && glob p String.[]
glob (String.◌∷◌ c p) (String.◌∷◌ d s) =
    let stars = some_suffix (glob p) (String.◌∷◌ d s) in
    let plain = code c == code d && glob p s in if code c == star then stars else plain
