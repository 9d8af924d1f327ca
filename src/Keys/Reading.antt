-- ===== src/Keys/Reading.antt =====
-- Reading the kind and the id of a key back from its text.
use Prim.Native.Char.{code}
use dispatch_api.Prelude.{
  ℕ, zero, suc, ◌≡◌, refl, Bool, true, false, ◌&&◌, ◌==◌, Option, none, some, List, [], ◌∷◌, String,
  joined, if◌then◌else◌, arith,
}
use dispatch_api.World.{
  lock_code, space_code, LockSpace, CacheSpace, auth_login, auth_refresh, auth_logout, user_create,
  user_update, user_remove, order_create, order_update, order_remove, item_create, item_update,
  item_remove, notifications_create, notifications_update, notifications_remove, job_execute,
  user_admin_create, order_create_once, order_job_once, payment_job_once, user_job_once,
  effect_job_once, item_create_once, item_find_all, item_find_one, blacklist, user_create_once,
  user_admin_create_once,
}
use dispatch_api.Keys.{path_text, lock_path, cache_path}

-- The number of a kind of key, read from the text of a key: the first kind whose parts the text begins with.
abbrev pub begins : String → String → Bool
begins String.[] s = true
begins (String.◌∷◌ c p) String.[] = false
begins (String.◌∷◌ c p) (String.◌∷◌ d s) = code c == code d && begins p s

module _ {S : Type 0} (code_of : S → ℕ) (path : S → List String) where
  abbrev pub number_in : List S → String → Option ℕ
  number_in [] s = none
  number_in (x ∷ xs) s =
      if begins (path_text (path x) "") s then some (code_of x) else number_in xs s

-- What follows a path.
abbrev pub after : String → String → Option String
after String.[] String.[] = none
after String.[] (String.◌∷◌ d s) = some s
after (String.◌∷◌ c p) String.[] = none
after (String.◌∷◌ c p) (String.◌∷◌ d s) = after p s

abbrev pub after_path : List String → String → Option String
after_path [] s = some s
after_path (p ∷ ps) s = elim (after p s) [ none ↦ none | some t ↦ after_path ps t ]

after-joined : (p s : String) → after p (joined p s) ≡ some s
after-joined String.[] s = refl
after-joined (String.◌∷◌ c p) s = after-joined p s

pub after_path-path_text : (ps : List String) (s : String) → after_path ps (path_text ps s) ≡ some s
after_path-path_text [] s = refl
after_path-path_text (p ∷ ps) s =
    ground (arith, after-joined p (path_text ps s), after_path-path_text ps s)

-- The kind with a number.
abbrev pub nth {ℓ} : {A : Type ℓ} → List A → ℕ → A → A
nth [] n d = d
nth (x ∷ xs) zero d = x
nth (x ∷ xs) (suc n) d = nth xs n d

abbrev pub all_locks : List LockSpace
all_locks =
    auth_login ∷ auth_refresh ∷ auth_logout ∷ user_create ∷ user_update ∷ user_remove ∷ order_create
    ∷ order_update ∷ order_remove ∷ item_create ∷ item_update ∷ item_remove ∷ notifications_create
    ∷ notifications_update ∷ notifications_remove ∷ job_execute ∷ user_admin_create ∷ []

abbrev pub all_spaces : List CacheSpace
all_spaces =
    order_create_once ∷ order_job_once ∷ payment_job_once ∷ user_job_once ∷ effect_job_once
    ∷ item_create_once ∷ item_find_all ∷ item_find_one ∷ blacklist ∷ user_create_once
    ∷ user_admin_create_once ∷ []

pub lock_at : (s : LockSpace) → nth all_locks (lock_code s) job_execute ≡ s
lock_at auth_login = refl
lock_at auth_refresh = refl
lock_at auth_logout = refl
lock_at user_create = refl
lock_at user_update = refl
lock_at user_remove = refl
lock_at order_create = refl
lock_at order_update = refl
lock_at order_remove = refl
lock_at item_create = refl
lock_at item_update = refl
lock_at item_remove = refl
lock_at notifications_create = refl
lock_at notifications_update = refl
lock_at notifications_remove = refl
lock_at job_execute = refl
lock_at user_admin_create = refl

pub space_at : (s : CacheSpace) → nth all_spaces (space_code s) blacklist ≡ s
space_at order_create_once = refl
space_at order_job_once = refl
space_at payment_job_once = refl
space_at user_job_once = refl
space_at effect_job_once = refl
space_at item_create_once = refl
space_at item_find_all = refl
space_at item_find_one = refl
space_at blacklist = refl
space_at user_create_once = refl
space_at user_admin_create_once = refl

pub lock_number :
    (s : LockSpace) (id : String)
    → number_in lock_code lock_path all_locks (path_text (lock_path s) id) ≡ some (lock_code s)
lock_number auth_login id = refl
lock_number auth_refresh id = refl
lock_number auth_logout id = refl
lock_number user_create id = refl
lock_number user_update id = refl
lock_number user_remove id = refl
lock_number order_create id = refl
lock_number order_update id = refl
lock_number order_remove id = refl
lock_number item_create id = refl
lock_number item_update id = refl
lock_number item_remove id = refl
lock_number notifications_create id = refl
lock_number notifications_update id = refl
lock_number notifications_remove id = refl
lock_number job_execute id = refl
lock_number user_admin_create id = refl

pub space_number :
    (s : CacheSpace) (id : String)
    → number_in space_code cache_path all_spaces (path_text (cache_path s) id) ≡ some (space_code s)
space_number order_create_once id = refl
space_number order_job_once id = refl
space_number payment_job_once id = refl
space_number user_job_once id = refl
space_number effect_job_once id = refl
space_number item_create_once id = refl
space_number item_find_all id = refl
space_number item_find_one id = refl
space_number blacklist id = refl
space_number user_create_once id = refl
space_number user_admin_create_once id = refl
