-- ===== src/Auth.antt =====
-- src/modules/auth/auth.service.ts, and the check of a token that the strategies of passport make
-- (src/modules/auth/providers/strategies).
pub mod Signing
pub mod Sessions
use dispatch_api.Prelude.{
  truthy, ℕ, Bool, true, false, not, ◌&&◌, Option, none, some, List, [], ◌∷◌, String, find,
  modify_where, if◌then◌else◌, is_some, ◌==◌,
}
use text.Mathlib.Text.{◌==◌ as text_eq}
use dispatch_api.Enums.{push, NotificationEvent}
use dispatch_api.Entities.{User, Db, is_live, notify_user, no_data}
use dispatch_api.Dtos.{RequestUser, JwtPayload, LoginResponse, revoked}
use dispatch_api.World.{
  World, LockKey, CacheKey, blacklist, auth_login, auth_refresh, auth_logout, user_update,
  user_not_found, invalid_password, no_refresh_token, invalid_refresh_token, token_revoked,
  type_error, M, Void, pure, gets, query, or_raise, raise, raise_if, write, fresh, ◌>>=◌, ◌>>◌,
}
use dispatch_api.Guard.{lock, lock_and_transaction}
use dispatch_api.Cache.{get, set}
use dispatch_api.Cache.Ttl
use dispatch_api.Outbox

-- `findOne({ where: { email } })`
abbrev pub user_by_email : String → Db → Option User
user_by_email email db = find (λ u. is_live u.deleted_at && text_eq u.email email) db.users

abbrev pub put_refresh_token : ℕ → Option String → Db → Db
put_refresh_token id h db = record db {
  users = modify_where (λ u. u.id == id) (λ u. record u { refresh_token = h }) db.users;
}

abbrev pub store_token : ℕ → Option String → M Void
store_token user_id none = write (put_refresh_token user_id none)
store_token user_id (some token) = do
  salt ← fresh
  hash ← gets (λ w. w.env.hash salt token)
  write (put_refresh_token user_id (some hash))

abbrev pub user_lock : ℕ → LockKey
user_lock user_id = record { space = user_update; id = user_id }

-- updateRefreshToken
unfoldable pub update_refresh_token : ℕ → Option String → M Void
update_refresh_token user_id token = lock (user_lock user_id) (store_token user_id (truthy token))

-- generateTokens
unfoldable pub generate_tokens : User → M LoginResponse
generate_tokens u = do
  jti ← fresh
  let payload : JwtPayload = record {
    sub = u.id;
    email = u.email;
    role = u.role;
    language = u.language;
    jti = jti;
  }
  access ← gets (λ w. w.env.sign_access w.now payload)
  refresh ← gets (λ w. w.env.sign_refresh w.now payload)
  pure (record {
    access_token = access;
    refresh_token = refresh;
    user_id = u.id;
    language = u.language;
  })

-- The lock of a text in a space is the number of the text.
abbrev pub login_lock : String → World → LockKey
login_lock email w = record { space = auth_login; id = w.env.text_code email }

abbrev pub refresh_lock : String → World → LockKey
refresh_lock email w = record { space = auth_refresh; id = w.env.text_code email }

abbrev pub logout_lock : String → World → LockKey
logout_lock email w = record { space = auth_logout; id = w.env.text_code email }

-- _login
unfoldable pub login_work : String → String → M LoginResponse
unfolding generate_tokens update_refresh_token
login_work email password = do
  found ← query (user_by_email email)
  u ← or_raise found user_not_found
  valid ← gets (λ w. w.env.compare u.password password)
  raise_if (not valid) invalid_password
  result ← generate_tokens u
  update_refresh_token u.id (some result.refresh_token)
  Outbox.add (notify_user u.id push NotificationEvent.auth_login no_data)
  pure result

-- login
unfoldable pub login : String → String → M LoginResponse
login email password w = lock_and_transaction (login_lock email w) (login_work email password) w

abbrev pub token_key : ℕ → CacheKey
token_key jti = record { space = blacklist; id = jti }

-- _logout
unfoldable pub logout_work : RequestUser → M Void
unfolding update_refresh_token set
logout_work r = do
  update_refresh_token r.id none
  set (token_key r.jti) revoked (some Ttl.auth_blacklist)

-- logout
unfoldable pub logout : RequestUser → M Void
logout r w = lock_and_transaction (logout_lock r.email w) (logout_work r) w

-- _refresh; argon2 throws on a hash that is not there.
unfoldable pub refresh_work : RequestUser → M LoginResponse
unfolding logout generate_tokens update_refresh_token
refresh_work r = do
  token ← or_raise (truthy r.refresh_token) no_refresh_token
  found ← query (user_by_email r.email)
  u ← or_raise found user_not_found
  stored ← or_raise u.refresh_token type_error
  valid ← gets (λ w. w.env.compare stored token)
  elim valid [
    | false ↦ do logout r; raise invalid_refresh_token
    | true ↦ do
      result ← generate_tokens u
      update_refresh_token u.id (some result.refresh_token)
      pure result
  ]

-- refresh
unfoldable pub refresh : RequestUser → M LoginResponse
refresh r w = lock_and_transaction (refresh_lock r.email w) (refresh_work r) w

-- validate of the two strategies: a token that is on the blacklist is refused.
unfoldable pub validate : ℕ → M Void
unfolding get
validate jti = do entry ← get (token_key jti); raise_if (is_some entry) token_revoked
