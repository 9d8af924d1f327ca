-- ===== src/Users/Access.antt =====
-- Who may remove whom (src/modules/users/users.service.ts).
use dispatch_api.Prelude.{
  ℕ, ◌≡◌, refl, false, leb, none, some, [], ◌∷◌, ◌++◌, find-modify_where, key-find, arith,
  Bool-cases, inl, inr, if◌then◌else◌,
}
use dispatch_api.Entities.{User, delete_customer}
use dispatch_api.Dtos.{RequestUser}
use dispatch_api.World.{World, ok, err, user_remove, access_denied}
use dispatch_api.Guard.{is_held, lock, transaction, lock_and_transaction}
use dispatch_api.Outbox
use dispatch_api.Outbox.Waiting.{jobs_of, jobs-push}
use dispatch_api.Users.{
  role_level, row_by_id, get_user_or_throw, assert_write_access, admin_remove, admin_remove_work,
  public_remove, public_remove_work, snapshot_of,
}

-- Nobody can remove the own account: a request with the role of the account itself, whose lock is
-- free, is refused, whatever the role, since a level is never above itself, and nothing is
-- changed.
pub public_remove_is_refused :
    (r : RequestUser) (w : World) (u : User)
    → row_by_id r.id w.committed ≡ some u
    → u.role ≡ r.role
    → is_held (record { space = user_remove; id = r.id }) w.held ≡ false
    → public_remove r w ≡ (err access_denied, w)
unfolding public_remove public_remove_work lock_and_transaction lock transaction get_user_or_throw
    assert_write_access
public_remove_is_refused r w u found same free = ground arith

-- If its lock is free, an account is removed by an account of a higher level, and by no other:
-- then it is not found any more and the removal of its customer is queued; else the request is
-- refused and nothing is changed.
pub admin_remove_needs_level :
    (id : ℕ) (r : RequestUser) (w : World) (u : User)
    → row_by_id id w.committed ≡ some u
    → is_held (record { space = user_remove; id = id }) w.held ≡ false
    → let (result, w') = admin_remove id r w in
      if leb (role_level r.role) (role_level u.role)
      then (admin_remove id r w ≡ (err access_denied, w))
      else ((result ≡ ok tt)
          × (row_by_id id w'.committed ≡ none)
          × (jobs_of w'.committed.outbox
              ≡ jobs_of w.committed.outbox ++ (delete_customer (snapshot_of u) ∷ [])))
unfolding admin_remove admin_remove_work lock_and_transaction lock transaction get_user_or_throw
    assert_write_access Outbox.add
admin_remove_needs_level id r w u found free =
    elim (Bool-cases (leb (role_level r.role) (role_level u.role))) [
      | inl low ↦ rw low (ground arith)
      | inr high ↦ rw high (
        ground arith,
        ground (
          arith,
          find-modify_where (λ (x : User). x.id) (λ x. record x { deleted_at = some w.now })
              w.committed.users u.id id (λ x. refl),
          key-find (λ (x : User). x.id) w.committed.users id {r = u},
        ),
        grind (arith, jobs-push),
      )
    ]
