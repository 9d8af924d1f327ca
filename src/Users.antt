-- ===== src/Users.antt =====
-- src/modules/users/users.service.ts: the role checks and the removal of accounts, with its job
-- (providers/strategies/update-user-job.strategy.ts) and the guard of src/modules/auth.
pub mod Access
pub mod Accounts
pub mod NewAccount
pub mod Created
pub mod SignedUp
pub mod Changed
pub mod Profiles
pub mod Taken
use dispatch_api.Prelude.{
  ℕ, Bool, true, false, not, ◌&&◌, ◌||◌, ◌==◌, leb, Option, none, some, List, [], ◌∷◌, find, upsert,
  modify_where, if◌then◌else◌,
}
use dispatch_api.Enums.{UserRole, superadmin, admin, shipper, delivery, financial, user}
use dispatch_api.Entities.{User, UserSnapshot, Db, only_live, delete_customer}
use dispatch_api.Dtos.{RequestUser}
use dispatch_api.World.{
  LockKey, user_update, user_remove, user_not_found, access_denied, role_change_denied,
  auth_is_required, M, Void, pure, gets, query, or_raise, raise, raise_if, write, ◌>>=◌, ◌>>◌,
}
use dispatch_api.Guard.{lock, lock_and_transaction}
use dispatch_api.Outbox

-- USER_ROLE_LEVEL (src/shared/constants/user-role-level.constant.ts)
abbrev pub role_level : UserRole → ℕ
role_level superadmin = 99
role_level admin = 10
role_level shipper = 2
role_level delivery = 2
role_level financial = 2
role_level user = 1

-- assertWriteAccess
unfoldable pub assert_write_access : User → Option RequestUser → M Void
assert_write_access target none = raise auth_is_required
assert_write_access target (some request_user) =
    raise_if (leb (role_level request_user.role) (role_level target.role)) access_denied

-- assertRoleWriteAccess; a comparison with the level of no role is false.
unfoldable pub assert_role_write_access : Option UserRole → Option RequestUser → M Void
assert_role_write_access target_role none = raise auth_is_required
assert_role_write_access none (some request_user) = pure tt
assert_role_write_access (some target_role) (some request_user) =
    raise_if (leb (role_level request_user.role) (role_level target_role)) role_change_denied

abbrev pub row_by_id : ℕ → Db → Option User
row_by_id id db = only_live (λ (u : User). u.deleted_at) (find (λ u. u.id == id) db.users)

-- getUserOrThrow
unfoldable pub get_user_or_throw : ℕ → M User
get_user_or_throw id = do found ← query (row_by_id id); or_raise found user_not_found

abbrev pub snapshot_of : User → UserSnapshot
snapshot_of u = record {
  id = u.id;
  name = u.name;
  email = u.email;
  customer_id = u.customer_id;
  address = none;
}

-- BaseRepository.softDelete of a user
abbrev pub soft_delete : ℕ → ℕ → Db → Db
soft_delete id now db = record db {
  users = modify_where (λ u. u.id == id) (λ u. record u { deleted_at = some now }) db.users;
}

-- _adminRemove
unfoldable pub admin_remove_work : ℕ → RequestUser → M Void
unfolding get_user_or_throw assert_write_access
admin_remove_work id request_user = do
  u ← get_user_or_throw id
  assert_write_access u (some request_user)
  now ← gets (λ w. w.now)
  write (soft_delete u.id now)
  Outbox.add (delete_customer (snapshot_of u))

-- adminRemove
unfoldable pub admin_remove : ℕ → RequestUser → M Void
admin_remove id request_user =
    lock_and_transaction (record { space = user_remove; id = id })
      (admin_remove_work id request_user)

-- _publicRemove
unfoldable pub public_remove_work : RequestUser → M Void
unfolding get_user_or_throw assert_write_access
public_remove_work request_user = do
  u ← get_user_or_throw request_user.id
  assert_write_access u (some request_user)
  now ← gets (λ w. w.now)
  write (soft_delete u.id now)
  Outbox.add (delete_customer (snapshot_of u))

-- publicRemove
unfoldable pub public_remove : RequestUser → M Void
public_remove request_user =
    lock_and_transaction (record { space = user_remove; id = request_user.id })
      (public_remove_work request_user)

-- UpdateUserJobStrategy.execute
unfoldable pub update_user_execute : ℕ → Option ℕ → M Void
update_user_execute user_id customer_id = do
  found ← query (row_by_id user_id)
  elim found [
    | none ↦ pure tt
    | some u ↦
        lock (record { space = user_update; id = user_id })
          (write (λ db. record db {
            users =
                modify_where (λ x. x.id == user_id) (λ x. record x { customer_id = customer_id })
                  db.users;
          }))
  ]

abbrev pub role_eq : UserRole → UserRole → Bool
role_eq superadmin superadmin = true
role_eq admin admin = true
role_eq shipper shipper = true
role_eq delivery delivery = true
role_eq financial financial = true
role_eq user user = true
role_eq _ _ = false

abbrev pub includes_role : List UserRole → UserRole → Bool
includes_role [] r = false
includes_role (x ∷ xs) r = role_eq x r || includes_role xs r

-- RolesGuard.canActivate (src/modules/auth/providers/guards/roles.guard.ts): the metadata of the
-- route, and the role of the user of the request, if there is one.
unfoldable pub can_activate : Bool → Option (List UserRole) → Option UserRole → Bool
can_activate true required role = true
can_activate false none role = true
can_activate false (some roles) none = false
can_activate false (some roles) (some role) = includes_role roles role
