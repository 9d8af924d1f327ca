-- ===== src/Auth/Sessions.antt =====
-- What signing in, renewing and signing out do (src/modules/auth/auth.service.ts).
use dispatch_api.Prelude.{
  ◌*◌, List, upsert, truthy, ℕ, ◌+◌, ◌≡◌, refl, ◌∙◌, true, false, ltb, none, some, [], ◌∷◌, ◌++◌,
  String, find-modify_where, key-find, arith,
}
use text.Mathlib.Text.{◌==◌ as text_eq}
use dispatch_api.Enums.{push, NotificationEvent}
use dispatch_api.Entities.{User, notify_user, no_data}
use dispatch_api.Dtos.{RequestUser, revoked}
use dispatch_api.World.{
  World, CacheEntry, ok, err, invalid_password, invalid_refresh_token, token_revoked, cache_eq_refl,
}
use dispatch_api.Guard.{is_held, release, opened, lock, transaction, lock_and_transaction}
use dispatch_api.Cache.{get, set, has_key}
use dispatch_api.Cache.Ttl
use dispatch_api.Cache.Replay.{find-upsert_fresh}
use dispatch_api.Outbox
use dispatch_api.Outbox.Waiting.{jobs_of, jobs-push}
use dispatch_api.Auth.{
  login, login_work, login_lock, refresh, refresh_work, refresh_lock, logout, logout_work,
  logout_lock, user_lock, update_refresh_token, user_by_email, token_key, validate,
}
use dispatch_api.Auth.Signing.{user_row, payload_of, put-user, login_work_lem, login_lem}

-- A wrong password is refused, if the lock of the sign-in is free, and nothing is changed.
pub login_refuses :
    (email password : String) (w : World) (u : User)
    → user_by_email email w.committed ≡ some u
    → w.env.compare u.password password ≡ false
    → is_held (login_lock email w) w.held ≡ false
    → login email password w ≡ (err invalid_password, w)
unfolding login login_work lock_and_transaction lock transaction
login_refuses email password w u found wrong free = ground arith

-- The right password gives tokens, if the locks of the sign-in and of the user are free and the
-- refresh token that is signed is not the empty text. The row of the user then has the hash of
-- the refresh token that the caller gets, and the user is told of the sign-in through the outbox.
pub login_succeeds :
    (email password : String) (w : World) (u : User)
    → user_by_email email w.committed ≡ some u
    → user_row u.id w.committed ≡ some u
    → w.env.compare u.password password ≡ true
    → is_held (login_lock email w) w.held ≡ false
    → is_held (user_lock u.id) w.held ≡ false
    → text_eq (w.env.sign_refresh w.now (payload_of u w.next_id)) "" ≡ false
    → let token = w.env.sign_refresh w.now (payload_of u w.next_id) in
      let (result, w') = login email password w in
      (result
        ≡ ok (record {
          access_token = w.env.sign_access w.now (payload_of u w.next_id);
          refresh_token = token;
          user_id = u.id;
          language = u.language;
        }))
      × (user_row u.id w'.committed
          ≡ some (record u { refresh_token = some (w.env.hash (w.next_id + 1) token) }))
      × (jobs_of w'.committed.outbox
          ≡ jobs_of w.committed.outbox
            ++ (notify_user u.id push NotificationEvent.auth_login no_data ∷ []))
unfolding Outbox.add
login_succeeds email password w u found row right free free_user signed =
    let hash = w.env.hash (w.next_id + 1) (w.env.sign_refresh w.now (payload_of u w.next_id)) in
    rw
      (
        login_lem email password w free,
        login_work_lem email password w u found right free_user signed,
      )
      (refl, put-user u.id hash w.committed.users u row, jobs-push _ w.committed.outbox)

-- The entry of a token that is revoked at a time.
abbrev revoked_entry : ℕ → ℕ → CacheEntry
revoked_entry jti now = record {
  key = token_key jti;
  value = revoked;
  expires_at = now + Ttl.micros Ttl.auth_blacklist;
}

revoked_until :
    (jti from t : ℕ) (es : List CacheEntry) (w : World)
    → w.cache ≡ upsert (has_key (token_key jti)) (revoked_entry jti from) es
    → ltb t (from + 1000 * (15 * 60 * 1000)) ≡ true
    → (validate jti (record w { now = t })).0 ≡ err token_revoked
unfolding validate get
revoked_until jti from t es w holds soon =
    let k = token_key jti in
    ground (arith, holds, find-upsert_fresh k t (revoked_entry jti from) es (cache_eq_refl k) soon)

logout-cache :
    (r : RequestUser) (w : World)
    → is_held (logout_lock r.email w) w.held ≡ false
    → is_held (user_lock r.id) w.held ≡ false
    → (logout r w).1.cache ≡ upsert (has_key (token_key r.jti)) (revoked_entry r.jti w.now) w.cache
unfolding logout logout_work lock_and_transaction lock transaction update_refresh_token set
logout-cache r w free_logout free_user = ground arith

-- Signing out, with its locks free, removes the stored token and revokes the token of the
-- request for the next 15 minutes.
pub logout_revokes :
    (r : RequestUser) (w : World) (owner : User) (t : ℕ)
    → user_row r.id w.committed ≡ some owner
    → is_held (logout_lock r.email w) w.held ≡ false
    → is_held (user_lock r.id) w.held ≡ false
    → ltb t (w.now + 1000 * (15 * 60 * 1000)) ≡ true
    → let (result, w') = logout r w in
      (result ≡ ok tt)
      × (user_row r.id w'.committed ≡ some (record owner { refresh_token = none }))
      × ((validate r.jti (record w' { now = t })).0 ≡ err token_revoked)
unfolding logout logout_work lock_and_transaction lock transaction update_refresh_token
logout_revokes r w owner t row free_logout free_user soon = (
  ground arith,
  ground (
    arith,
    find-modify_where (λ (x : User). x.id) (λ x. record x { refresh_token = none })
        w.committed.users r.id r.id (λ x. refl),
    key-find (λ (x : User). x.id) w.committed.users r.id {r = owner},
  ),
  revoked_until r.jti w.now t w.cache (logout r w).1 (logout-cache r w free_logout free_user) soon,
)

-- The state in which the work of a refresh runs.
abbrev in_refresh : RequestUser → World → World
in_refresh r w = opened (record w { held = refresh_lock r.email w ∷ w.held })

-- With a token that is not the stored one, a refresh is a sign-out that ends in an error.
refresh_as_logout :
    (r : RequestUser) (token stored : String) (w : World) (u : User)
    → truthy r.refresh_token ≡ some token
    → user_by_email r.email w.committed ≡ some u
    → u.refresh_token ≡ some stored
    → w.env.compare stored token ≡ false
    → is_held (refresh_lock r.email w) w.held ≡ false
    → (logout r (in_refresh r w)).0 ≡ ok tt
    → let after = (logout r (in_refresh r w)).1 in
      refresh r w ≡ (
        err invalid_refresh_token,
        record after { tx = w.tx; held = release (refresh_lock r.email w) after.held },
      )
unfolding refresh refresh_work lock_and_transaction lock transaction
refresh_as_logout r token stored w u given found has wrong free done = ground arith

-- The check of a token reads the cache and the time only.
validate-same :
    (jti : ℕ) (v w : World)
    → v.cache ≡ w.cache
    → v.now ≡ w.now
    → (validate jti v).0 ≡ (validate jti w).0
unfolding validate get
validate-same jti v w same_cache same_now = ground arith

-- A refresh token that is not the one stored, a token that has been used before for instance,
-- ends the session of the user, if the locks are free: the request fails, but the stored token is
-- removed, although the transaction of the request is rolled back, and the token of the
-- request is refused at every time of the next 15 minutes.
pub refresh_ends_session :
    (r : RequestUser) (token stored : String) (w : World) (u owner : User) (t : ℕ)
    → truthy r.refresh_token ≡ some token
    → user_by_email r.email w.committed ≡ some u
    → u.refresh_token ≡ some stored
    → w.env.compare stored token ≡ false
    → user_row r.id w.committed ≡ some owner
    → is_held (refresh_lock r.email w) w.held ≡ false
    → is_held (logout_lock r.email w) w.held ≡ false
    → is_held (user_lock r.id) w.held ≡ false
    → ltb t (w.now + 1000 * (15 * 60 * 1000)) ≡ true
    → let (result, w') = refresh r w in
      (result ≡ err invalid_refresh_token)
      × (user_row r.id w'.committed ≡ some (record owner { refresh_token = none }))
      × ((validate r.jti (record w' { now = t })).0 ≡ err token_revoked)
refresh_ends_session r token stored w u owner t given found has wrong row free_refresh free_logout
      free_user soon =
    let (done, removed, blocked) =
      logout_revokes r (in_refresh r w) owner t row free_logout free_user soon in
    rw (refresh_as_logout r token stored w u given found has wrong free_refresh done) (
      refl,
      removed,
      validate-same r.jti _ (record (logout r (in_refresh r w)).1 { now = t }) refl refl ∙ blocked,
    )
