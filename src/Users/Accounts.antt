-- ===== src/Users/Accounts.antt =====
-- src/modules/users/users.service.ts: the making and changing of accounts, with their addresses.
use text.Mathlib.Text.{◌==◌ as text_eq}
use dispatch_api.Prelude.{
  ℕ, true, false, ◌&&◌, ◌==◌, ltb, Bool, Option, none, some, List, [], ◌∷◌, ◌++◌, String, find,
  keep, length, upsert, exists, or_else, truthy, map_option,
}
use dispatch_api.Enums.{user}
use dispatch_api.Entities.{
  User, Address, BaseAddress, Db, is_live, create_customer, update_customer,
}
use dispatch_api.Dtos.{CreateUser, UpdateUser, UserResponse, RequestUser, CacheValue, user_value}
use dispatch_api.World.{
  CacheKey, user_create, user_admin_create, user_update, user_create_once, user_admin_create_once,
  email_already_exists, unique_violation, not_null_violation, M, Void, pure, gets, query, or_raise,
  raise_if, write, fresh, ◌>>=◌, ◌>>◌,
}
use dispatch_api.Guard.{lock_and_transaction}
use dispatch_api.Cache.{get_or_execute}
use dispatch_api.Outbox
use dispatch_api.Users.{
  get_user_or_throw, assert_write_access, assert_role_write_access, snapshot_of,
}

-- EntityMapper.map(user, UserResponseDto) and EntityMapper.map(user, UserSelfResponseDto)
abbrev pub to_user_response : User → UserResponse
to_user_response u = record {
  id = u.id;
  name = u.name;
  email = some u.email;
  role = some u.role;
  created_at = u.created_at;
  language = some u.language;
  address = none;
}

abbrev pub to_self_response : User → UserResponse
to_self_response u = record (to_user_response u) { role = none }

-- EntityMapper.map(address, UserAddressResponseDto), and the same to a snapshot
abbrev pub to_base_address : Address → BaseAddress
to_base_address a = record {
  city = some a.city;
  country = some a.country;
  line1 = some a.line1;
  line2 = a.line2;
  postal_code = some a.postal_code;
  state = some a.state;
}

abbrev pub has_email : String → User → Bool
has_email email u = text_eq u.email email

-- `userRepository.existsBy({ where: { email } })`: of the accounts that are not removed
unfoldable pub email_exists : String → M Bool
email_exists email = query (λ db. exists (λ u. is_live u.deleted_at && has_email email u) db.users)

abbrev pub email_count : String → List User → ℕ
email_count email us = length (keep (has_email email) us)

-- A write of a row with this email: the unique index on the emails, which counts removed accounts
-- too, refuses a table in which two rows have it.
unfoldable pub save_users : (List User → List User) → String → M Void
save_users change email = do
  after ← query (λ db. change db.users)
  raise_if (ltb 1 (email_count email after)) unique_violation
  write (λ db. record db { users = change db.users })

abbrev pub insert_user : User → M Void
insert_user u = save_users (λ us. us ++ (u ∷ [])) u.email

abbrev pub update_row : User → M Void
update_row u = save_users (upsert (λ x. x.id == u.id) u) u.email

-- `addressRepository.save` of a new address: all columns but `line2` are required.
unfoldable pub insert_address : BaseAddress → ℕ → M Address
insert_address dto user_id = do
  id ← fresh
  line1 ← or_raise dto.line1 not_null_violation
  city ← or_raise dto.city not_null_violation
  state ← or_raise dto.state not_null_violation
  country ← or_raise dto.country not_null_violation
  postal_code ← or_raise dto.postal_code not_null_violation
  let a : Address = record {
    id = id;
    deleted_at = none;
    user_id = user_id;
    line1 = line1;
    line2 = dto.line2;
    city = city;
    state = state;
    country = country;
    postal_code = postal_code;
  }
  write (λ db. record db { addresses = db.addresses ++ (a ∷ []) })
  pure a

-- `findOne({ where: { userId } })`
abbrev pub address_of : ℕ → Db → Option Address
address_of user_id db = find (λ a. is_live a.deleted_at && a.user_id == user_id) db.addresses

-- `Object.assign(address, dto)`
abbrev pub assign_address : BaseAddress → Address → Address
assign_address dto a = record a {
  line1 = or_else dto.line1 a.line1;
  line2 = elim dto.line2 [ none ↦ a.line2 | some l ↦ some l ];
  city = or_else dto.city a.city;
  state = or_else dto.state a.state;
  country = or_else dto.country a.country;
  postal_code = or_else dto.postal_code a.postal_code;
}

abbrev pub save_found : BaseAddress → ℕ → Option Address → M Address
save_found dto user_id none = insert_address dto user_id
save_found dto user_id (some a) = do
  let saved = assign_address dto a
  write (λ db. record db { addresses = upsert (λ x. x.id == saved.id) saved db.addresses })
  pure saved

-- createOrUpdateAddress
unfoldable pub create_or_update_address : BaseAddress → ℕ → M Address
create_or_update_address dto user_id = do
  found ← query (address_of user_id)
  save_found dto user_id found

-- The row of a new account. The password is hashed with a new salt.
unfoldable pub save_new_user : CreateUser → M User
save_new_user dto = do
  salt ← fresh
  password ← gets (λ w. w.env.hash salt dto.password)
  id ← fresh
  now ← gets (λ w. w.now)
  let u : User = record {
    id = id;
    created_at = now;
    deleted_at = none;
    name = dto.name;
    email = dto.email;
    password = password;
    role = or_else dto.role user;
    refresh_token = none;
    language = or_else (truthy dto.language) "en";
    customer_id = none;
  }
  insert_user u
  pure u

abbrev pub save_optional_address : Option BaseAddress → ℕ → M (Option Address)
save_optional_address none user_id = pure none
save_optional_address (some dto) user_id = do a ← insert_address dto user_id; pure (some a)

-- `dto.role` and `dto.language` are not passed on.
abbrev pub without_role : CreateUser → CreateUser
without_role dto = record dto { role = none; language = none }

-- _publicCreate
unfoldable pub public_create_work : CreateUser → M CacheValue
public_create_work dto = do
  taken ← email_exists dto.email
  raise_if taken email_already_exists
  u ← save_new_user (without_role dto)
  address ← save_optional_address dto.address u.id
  Outbox.add (create_customer (record (snapshot_of u) { address = dto.address }))
  pure (user_value (record (to_self_response u) { address = map_option to_base_address address }))

abbrev pub public_create_once : ℕ → CacheKey
public_create_once key = record { space = user_create_once; id = key }

-- publicCreate
unfoldable pub public_create : CreateUser → ℕ → M CacheValue
public_create dto key =
    lock_and_transaction (record { space = user_create; id = key })
      (get_or_execute (public_create_once key) (public_create_work dto))

-- _adminCreate; the response has no address.
unfoldable pub admin_create_work : CreateUser → RequestUser → M CacheValue
admin_create_work dto request_user = do
  taken ← email_exists dto.email
  raise_if taken email_already_exists
  assert_role_write_access dto.role (some request_user)
  u ← save_new_user dto
  address ← save_optional_address dto.address u.id
  Outbox.add
      (create_customer (record (snapshot_of u) { address = map_option to_base_address address }))
  pure (user_value (to_user_response u))

-- adminCreate
unfoldable pub admin_create : CreateUser → ℕ → RequestUser → M CacheValue
admin_create dto key request_user =
    lock_and_transaction (record { space = user_admin_create; id = key })
      (get_or_execute (record { space = user_admin_create_once; id = key })
        (admin_create_work dto request_user))

-- `Object.assign(user, dto)`. The password is taken as it is given, and `currentPassword` and
-- `address` become fields that are not columns.
abbrev pub assign_user : UpdateUser → User → User
assign_user dto u = record u {
  name = or_else dto.name u.name;
  email = or_else dto.email u.email;
  password = or_else dto.password u.password;
  language = or_else dto.language u.language;
  role = or_else dto.role u.role;
}

-- The test for a new email, when there is one and it is another.
unfoldable pub require_free_email : Option String → String → M Void
require_free_email none old_email = pure tt
require_free_email (some new_email) old_email = elim (text_eq new_email old_email) [
  | true ↦ pure tt
  | false ↦ do taken ← email_exists new_email; raise_if taken email_already_exists
]

abbrev pub save_address : Option BaseAddress → ℕ → M (Option BaseAddress)
save_address none user_id = pure none
save_address (some dto) user_id = do
  a ← create_or_update_address dto user_id
  pure (some (to_base_address a))

-- _publicUpdate; the response holds the address of the request.
unfoldable pub public_update_work : UpdateUser → RequestUser → M UserResponse
public_update_work dto request_user = do
  u ← get_user_or_throw request_user.id
  require_free_email (truthy dto.email) u.email
  let saved = assign_user (record dto { role = none }) u
  update_row saved
  address ← save_address dto.address saved.id
  Outbox.add (update_customer (record (snapshot_of saved) { address = address }))
  pure (record (to_self_response saved) { address = dto.address })

-- publicUpdate
unfoldable pub public_update : UpdateUser → RequestUser → M UserResponse
public_update dto request_user =
    lock_and_transaction (record { space = user_update; id = request_user.id })
      (public_update_work dto request_user)

-- _adminUpdate
unfoldable pub admin_update_work : ℕ → UpdateUser → RequestUser → M UserResponse
admin_update_work id dto request_user = do
  u ← get_user_or_throw id
  require_free_email (truthy dto.email) u.email
  assert_write_access u (some request_user)
  let saved = assign_user dto u
  update_row saved
  address ← save_address dto.address saved.id
  Outbox.add (update_customer (record (snapshot_of saved) { address = address }))
  pure (record (to_user_response saved) { address = dto.address })

-- adminUpdate
unfoldable pub admin_update : ℕ → UpdateUser → RequestUser → M UserResponse
admin_update id dto request_user =
    lock_and_transaction (record { space = user_update; id = id })
      (admin_update_work id dto request_user)
