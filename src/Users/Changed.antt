-- ===== src/Users/Changed.antt =====
-- How publicUpdate and adminUpdate of src/modules/users/users.service.ts end.
use text.Mathlib.Text.{◌==◌ as text_eq}
use dispatch_api.Prelude.{
  ℕ, ◌≡◌, ◌&&◌, ◌||◌, ◌==◌, Bool, refl, true, false, not, leb, ltb, exists, Bool-cases, inl, inr,
  none, some, Option, or_else, truthy, upsert, find-upsert, key-find, List, [], ◌∷◌, ◌++◌, String,
  arith, if◌then◌else◌,
}
use dispatch_api.Entities.{User, Db, update_customer, is_live}
use dispatch_api.Dtos.{UpdateUser, RequestUser}
use dispatch_api.World.{World, view, write_world, ok, err, user_update, access_denied}
use dispatch_api.Guard.{is_held, opened, lock, transaction, lock_and_transaction}
use dispatch_api.Outbox.Waiting.{jobs_of, jobs-push, message_of, add_lem}
use dispatch_api.Users.{role_level, row_by_id, get_user_or_throw, assert_write_access, snapshot_of}
use dispatch_api.Users.Accounts.{
  public_update, public_update_work, admin_update, admin_update_work, assign_user, save_users,
  require_free_email, email_exists, email_count, has_email, to_self_response, to_user_response,
}

-- The email is the old one, or that of no account.
abbrev pub may_take : Option String → String → List User → Bool
may_take none old us = true
may_take (some e) old us =
    text_eq e old || not (exists (λ u. is_live u.deleted_at && has_email e u) us)

-- The row that is written fits the unique index.
abbrev pub fits_index : User → List User → Bool
fits_index u us = not (ltb 1 (email_count u.email (upsert (λ x. x.id == u.id) u us)))

require_free_email_lem :
    (e : Option String) (old : String) (w : World)
    → may_take e old (view w).users ≡ true
    → require_free_email e old w ≡ (ok tt, w)
unfolding require_free_email email_exists
require_free_email_lem none old w free = refl
require_free_email_lem (some e) old w free = elim (Bool-cases (text_eq e old)) [
  | inl same ↦ rw (same, require_free_email) refl
  | inr other ↦ rw (other, require_free_email) (ground arith)
]

abbrev put_user : User → Db → Db
put_user u db = record db { users = upsert (λ x. x.id == u.id) u db.users }

save_users_lem :
    (u : User) (w : World)
    → fits_index u (view w).users ≡ true
    → save_users (upsert (λ x. x.id == u.id) u) u.email w ≡ (ok tt, write_world (put_user u) w)
unfolding save_users
save_users_lem u w fits = ground arith

-- With its lock free, a request of a user without an address, with no email or one that may be taken, is answered by
-- the account with the values of the request in place of the old ones, and the update of the
-- customer is queued. The role stays; but a new password is stored as it is given, not hashed, and the current
-- password is not asked for.
pub public_update_stores :
    (dto : UpdateUser) (r : RequestUser) (w : World) (u : User)
    → row_by_id r.id w.committed ≡ some u
    → is_held (record { space = user_update; id = r.id }) w.held ≡ false
    → dto.address ≡ none
    → may_take (truthy dto.email) u.email w.committed.users ≡ true
    → fits_index (assign_user (record dto { role = none }) u) w.committed.users ≡ true
    → let (result, w') = public_update dto r w in
      let saved : User = record u {
        name = or_else dto.name u.name;
        email = or_else dto.email u.email;
        password = or_else dto.password u.password;
        language = or_else dto.language u.language;
      } in
      (result ≡ ok (to_self_response saved))
      × (row_by_id r.id w'.committed ≡ some saved)
      × (jobs_of w'.committed.outbox
          ≡ jobs_of w.committed.outbox ++ (update_customer (snapshot_of saved) ∷ []))
unfolding public_update public_update_work lock_and_transaction lock transaction get_user_or_throw
public_update_stores dto r w u found free no_address may fits =
    let v = opened (record w { held = record { space = user_update; id = r.id } ∷ w.held }) in
    let saved = assign_user (record dto { role = none }) u in
    let v' = write_world (put_user saved) v in
    let body = update_customer (snapshot_of saved) in
    let email = require_free_email_lem (truthy dto.email) u.email v may in
    let stored = save_users_lem saved v fits in
    let added = add_lem body v' in
    (
      ground (arith, found, free, no_address, email, stored, added),
      ground (
        arith,
        found,
        free,
        no_address,
        email,
        stored,
        added,
        find-upsert (λ (x : User). x.id) saved w.committed.users r.id,
        key-find (λ (x : User). x.id) w.committed.users r.id {r = u},
      ),
      ground (
        arith,
        found,
        free,
        no_address,
        email,
        stored,
        added,
        jobs-push (message_of body v') w.committed.outbox,
      ),
    )

-- The request changes no address, its email, if it has one, may be taken, the row that it makes fits
-- the unique index, and the lock of the account is free. Then an account of a higher level changes the
-- account; one of the same or a lower level is refused and nothing is changed. The role that the
-- request gives is stored as it is, also one above that of who asks.
pub admin_update_needs_level :
    (id : ℕ) (dto : UpdateUser) (r : RequestUser) (w : World) (u : User)
    → row_by_id id w.committed ≡ some u
    → is_held (record { space = user_update; id = id }) w.held ≡ false
    → dto.address ≡ none
    → may_take (truthy dto.email) u.email w.committed.users ≡ true
    → fits_index (assign_user dto u) w.committed.users ≡ true
    → let (result, w') = admin_update id dto r w in
      let saved = assign_user dto u in
      if leb (role_level r.role) (role_level u.role)
      then (admin_update id dto r w ≡ (err access_denied, w))
      else ((result ≡ ok (to_user_response saved))
          × (row_by_id id w'.committed ≡ some saved)
          × (saved.role ≡ or_else dto.role u.role))
unfolding admin_update admin_update_work lock_and_transaction lock transaction get_user_or_throw
    assert_write_access
admin_update_needs_level id dto r w u found free no_address may fits =
    let v = opened (record w { held = record { space = user_update; id = id } ∷ w.held }) in
    let saved = assign_user dto u in
    let v' = write_world (put_user saved) v in
    let email = require_free_email_lem (truthy dto.email) u.email v may in
    let stored = save_users_lem saved v fits in
    let added = add_lem (update_customer (snapshot_of saved)) v' in
    elim (Bool-cases (leb (role_level r.role) (role_level u.role))) [
      | inl low ↦ rw low (ground (arith, found, free, email))
      | inr high ↦ rw high (
        ground (arith, high, found, free, no_address, email, stored, added),
        ground (
          arith,
          high,
          found,
          free,
          no_address,
          email,
          stored,
          added,
          find-upsert (λ (x : User). x.id) saved w.committed.users id,
          key-find (λ (x : User). x.id) w.committed.users id {r = u},
        ),
        refl,
      )
    ]
