-- ===== src/Auth/Signing.antt =====
-- The steps of signing in (src/modules/auth/auth.service.ts).
use dispatch_api.Prelude.{
  ℕ, ◌+◌, ◌≡◌, refl, modify_where, true, false, ◌==◌, Option, some, List, ◌∷◌, String, find,
  find-modify_where, arith,
}
use text.Mathlib.Text.{◌==◌ as text_eq}
use dispatch_api.Enums.{push, NotificationEvent}
use dispatch_api.Entities.{User, Db, JobBody, notify_user, no_data}
use dispatch_api.Dtos.{JwtPayload, LoginResponse}
use dispatch_api.World.{World, LockKey, Result, ok, lock_eq_refl, write_world}
use dispatch_api.Guard.{is_held, release, opened, settle, lock, transaction, lock_and_transaction}
use dispatch_api.Outbox
use dispatch_api.Auth.{
  login, login_work, login_lock, user_lock, update_refresh_token, generate_tokens, user_by_email,
  put_refresh_token,
}

-- The row of a user, soft-deleted or not.
abbrev pub user_row : ℕ → Db → Option User
user_row id db = find (λ u. u.id == id) db.users

-- What is signed for a user.
abbrev pub payload_of : User → ℕ → JwtPayload
payload_of u jti = record {
  sub = u.id;
  email = u.email;
  role = u.role;
  language = u.language;
  jti = jti;
}

pub put-user :
    (id : ℕ) (hash : String) (us : List User) (u : User)
    → find (λ x. x.id == id) us ≡ some u
    → find
        (λ x. x.id == id)
        (modify_where (λ x. x.id == id) (λ x. record x { refresh_token = some hash }) us)
      ≡ some (record u { refresh_token = some hash })
put-user id hash us u row = ground (
  arith,
  row,
  find-modify_where (λ (x : User). x.id) (λ x. record x { refresh_token = some hash }) us id id
      (λ x. refl),
)

-- Storing a token writes its hash, if the lock of the user is free.
pub update_refresh_token_lem :
    (id : ℕ) (token : String) (w : World)
    → text_eq token "" ≡ false
    → is_held (user_lock id) w.held ≡ false
    → update_refresh_token id (some token) w ≡ (
      ok tt,
      write_world
          (put_refresh_token id (some (w.env.hash w.next_id token)))
          (record w { next_id = w.next_id + 1 }),
    )
unfolding update_refresh_token lock
update_refresh_token_lem id token w signed free = ground (arith, lock_eq_refl (user_lock id))

-- The state in which a sign-in stores its token.
abbrev pub signing : String → World → World
signing email w = record (opened (record w { held = login_lock email w ∷ w.held })) {
  next_id = w.next_id + 1;
}

pub add_ok : (body : JobBody) (w : World) → (Outbox.add body w).0 ≡ ok tt
unfolding Outbox.add
add_ok body w = refl

pub login_work_lem :
    (email password : String) (w : World) (u : User)
    → user_by_email email w.committed ≡ some u
    → w.env.compare u.password password ≡ true
    → is_held (user_lock u.id) w.held ≡ false
    → text_eq (w.env.sign_refresh w.now (payload_of u w.next_id)) "" ≡ false
    → let token = w.env.sign_refresh w.now (payload_of u w.next_id) in
      let stored =
        write_world
          (put_refresh_token u.id (some (w.env.hash (w.next_id + 1) token)))
          (record (signing email w) { next_id = w.next_id + 1 + 1 }) in
      login_work email password (opened (record w { held = login_lock email w ∷ w.held })) ≡ (
        ok (record {
          access_token = w.env.sign_access w.now (payload_of u w.next_id);
          refresh_token = token;
          user_id = u.id;
          language = u.language;
        }),
        (Outbox.add (notify_user u.id push NotificationEvent.auth_login no_data) stored).1,
      )
unfolding login_work generate_tokens
login_work_lem email password w u found right free_user signed =
    let token = w.env.sign_refresh w.now (payload_of u w.next_id) in
    rw
      (
        found,
        right,
        update_refresh_token_lem u.id token (signing email w) signed free_user,
        add_ok (notify_user u.id push NotificationEvent.auth_login no_data) _,
      )
      refl

-- The lock is given back.
abbrev pub unlocked : LockKey → Result LoginResponse × World → Result LoginResponse × World
unlocked key (r, w) = (r, record w { held = release key w.held })

pub login_lem :
    (email password : String) (w : World)
    → is_held (login_lock email w) w.held ≡ false
    → let (r, w') =
        login_work email password (opened (record w { held = login_lock email w ∷ w.held })) in
      login email password w ≡ unlocked (login_lock email w) (settle w.tx (r, w'))
unfolding login lock_and_transaction lock transaction
login_lem email password w free = ground arith
