-- ===== src/Tests/Accounts.antt =====
-- Runs of making and changing accounts.
use dispatch_api.Prelude.{◌≡◌, refl, none, some, [], ◌∷◌, ◌++◌, if◌then◌else◌, leb, or_else}
use dispatch_api.Enums.{superadmin, admin}
use dispatch_api.Entities.{User, BaseAddress, create_customer, update_customer}
use dispatch_api.Dtos.{CreateUser, UpdateUser, RequestUser, user_value}
use dispatch_api.World.{ok, err, access_denied, email_already_exists, unique_violation}
use dispatch_api.Outbox.Waiting.{jobs_of}
use dispatch_api.Users.{row_by_id, role_level, snapshot_of}
use dispatch_api.Users.Accounts.{
  public_create, public_update, admin_update, assign_user, to_self_response, to_user_response,
}
use dispatch_api.Users.NewAccount.{new_account}
use dispatch_api.Users.Created.{public_create_succeeds}
use dispatch_api.Users.Changed.{public_update_stores, admin_update_needs_level}
use dispatch_api.Users.Taken.{in_use, sign_up_conflicts}
use dispatch_api.Tests.Data.{shop, ann}

abbrev home : BaseAddress
home = record {
  city = some "Recife";
  country = some "BR";
  line1 = some "Rua da Aurora, 1";
  line2 = none;
  postal_code = some "50050-000";
  state = some "PE";
}

abbrev joe : CreateUser
joe = record {
  name = "Joe";
  email = "joe@shop";
  password = "secret";
  language = some "pt-BR";
  role = none;
  address = some home;
}

public_create_succeeds_example :
    let (r, w') = public_create joe 5 shop in
    let u = new_account joe shop in
    (r ≡ ok (user_value (record (to_self_response u) { address = some home })))
    × (w'.committed.users ≡ shop.committed.users ++ (u ∷ []))
    × (jobs_of w'.committed.outbox
        ≡ jobs_of shop.committed.outbox
          ++ (create_customer (record (snapshot_of u) { address = some home }) ∷ []))
public_create_succeeds_example = public_create_succeeds joe 5 shop refl refl refl refl

abbrev pub as_ann : RequestUser
as_ann = record {
  id = 7;
  email = "ann@shop";
  role = ann.role;
  language = "en";
  jti = 3;
  refresh_token = none;
}

abbrev as_root : RequestUser
as_root = record as_ann { id = 8; email = "root@shop"; role = superadmin }

abbrev change : UpdateUser
change = record {
  name = some "Anna";
  email = some "anna@shop";
  password = some "letmein";
  current_password = none;
  language = none;
  role = some superadmin;
  address = none;
}

public_update_stores_example :
    let (result, w') = public_update change as_ann shop in
    let saved : User = record ann { name = "Anna"; email = "anna@shop"; password = "letmein" } in
    (result ≡ ok (to_self_response saved))
    × (row_by_id 7 w'.committed ≡ some saved)
    × (jobs_of w'.committed.outbox
        ≡ jobs_of shop.committed.outbox ++ (update_customer (snapshot_of saved) ∷ []))
public_update_stores_example = public_update_stores change as_ann shop ann refl refl refl refl refl

-- An administrator, who makes a user a super-administrator.
abbrev as_admin : RequestUser
as_admin = record as_root { id = 9; role = admin }

admin_update_needs_level_example :
    let (result, w') = admin_update 7 change as_admin shop in
    let saved = assign_user change ann in
    if leb (role_level admin) (role_level ann.role)
    then (admin_update 7 change as_admin shop ≡ (err access_denied, shop))
    else ((result ≡ ok (to_user_response saved))
        × (row_by_id 7 w'.committed ≡ some saved)
        × (saved.role ≡ or_else (some superadmin) ann.role))
admin_update_needs_level_example =
    admin_update_needs_level 7 change as_admin shop ann refl refl refl refl refl

sign_up_conflicts_example :
    let (r, w') = public_create (record joe { email = "ann@shop" }) 5 shop in
    (r
      ≡ err (
          if in_use "ann@shop" shop.committed.users
          then email_already_exists
          else unique_violation))
    × (w'.committed ≡ shop.committed)
    × (w'.held ≡ shop.held)
sign_up_conflicts_example =
    sign_up_conflicts (record joe { email = "ann@shop" }) 5 shop refl refl refl
