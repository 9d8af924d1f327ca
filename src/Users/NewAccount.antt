-- ===== src/Users/NewAccount.antt =====
-- The parts of publicCreate of src/modules/users/users.service.ts: the row of the account and that of its address.
use dispatch_api.Prelude.{
  ℕ, ◌+◌, ◌≡◌, ap, map_option, ◌&&◌, Bool, refl, true, false, ltb, exists, none, some, Option,
  is_some, or_else, List, [], ◌∷◌, ◌++◌, String, arith,
}
use dispatch_api.Enums.{user}
use dispatch_api.Entities.{User, Address, Db, BaseAddress, is_live}
use dispatch_api.Dtos.{CreateUser}
use dispatch_api.World.{World, view, write_world, bind_ok, ok}
use dispatch_api.Users.Accounts.{
  save_new_user, save_users, email_exists, email_count, has_email, insert_address,
  save_optional_address, to_base_address, without_role,
}

-- The columns that an address must have are there.
abbrev pub is_complete : Option BaseAddress → Bool
is_complete none = true
is_complete (some a) =
    is_some a.line1
    && (is_some a.city && (is_some a.state && (is_some a.country && is_some a.postal_code)))

abbrev pub new_account : CreateUser → World → User
new_account dto w = record {
  id = w.next_id + 1;
  created_at = w.now;
  deleted_at = none;
  name = dto.name;
  email = dto.email;
  password = w.env.hash w.next_id dto.password;
  role = user;
  refresh_token = none;
  language = "en";
  customer_id = none;
}

count-append :
    (u : User) (e : String) (us : List User)
    → email_count e us ≡ 0
    → ltb 1 (email_count e (us ++ (u ∷ []))) ≡ false
count-append u e [] h = ground arith
count-append u e (x ∷ us) h = ground (arith, count-append u e us)

none_live :
    (e : String) (us : List User)
    → email_count e us ≡ 0
    → exists (λ u. is_live u.deleted_at && has_email e u) us ≡ false
none_live e [] h = refl
none_live e (x ∷ us) h = ground (arith, none_live e us)

-- The effects of the parts, as equations on the state.
abbrev pub address_row : BaseAddress → ℕ → ℕ → Address
address_row a id user_id = record {
  id = id;
  deleted_at = none;
  user_id = user_id;
  line1 = or_else a.line1 "";
  line2 = a.line2;
  city = or_else a.city "";
  state = or_else a.state "";
  country = or_else a.country "";
  postal_code = or_else a.postal_code "";
}

abbrev pub add_user : User → Db → Db
add_user u db = record db { users = db.users ++ (u ∷ []) }

abbrev pub add_address : Address → Db → Db
add_address a db = record db { addresses = db.addresses ++ (a ∷ []) }

pub email_exists_lem :
    (e : String) (w : World) → email_count e (view w).users ≡ 0 → email_exists e w ≡ (ok false, w)
unfolding email_exists
email_exists_lem e w new = rw (none_live e (view w).users new) refl

pub save_new_user_lem :
    (dto : CreateUser) (w : World)
    → email_count dto.email (view w).users ≡ 0
    → save_new_user (without_role dto) w ≡ (
      ok (new_account dto w),
      write_world (add_user (new_account dto w)) (record w { next_id = w.next_id + 2 }),
    )
unfolding save_new_user save_users
save_new_user_lem dto w new =
    ground (arith, count-append (new_account dto w) dto.email (view w).users new)

insert_address_lem :
    (a : BaseAddress) (user_id : ℕ) (w : World)
    → is_complete (some a) ≡ true
    → insert_address a user_id w ≡ (
      ok (address_row a w.next_id user_id),
      write_world
          (add_address (address_row a w.next_id user_id))
          (record w { next_id = w.next_id + 1 }),
    )
unfolding insert_address
insert_address_lem a user_id w complete = ground arith

address_row_back :
    (a : BaseAddress) (id user_id : ℕ)
    → is_complete (some a) ≡ true
    → to_base_address (address_row a id user_id) ≡ a
address_row_back a id user_id complete = ground arith

unfoldable pub saved_row : Option BaseAddress → ℕ → World → Option Address
saved_row none user_id w = none
saved_row (some a) user_id w = some (address_row a w.next_id user_id)

unfoldable pub with_address : Option BaseAddress → ℕ → World → World
with_address none user_id w = w
with_address (some a) user_id w =
    write_world (add_address (address_row a w.next_id user_id))
      (record w { next_id = w.next_id + 1 })

pub save_optional_address_lem :
    (dto : Option BaseAddress) (user_id : ℕ) (w : World)
    → is_complete dto ≡ true
    → save_optional_address dto user_id w
      ≡ (ok (saved_row dto user_id w), with_address dto user_id w)
unfolding saved_row with_address
save_optional_address_lem none user_id w complete = refl
save_optional_address_lem (some a) user_id w complete =
    bind_ok (insert_address a user_id) _ w (insert_address_lem a user_id w complete)

pub saved_row_back :
    (dto : Option BaseAddress) (user_id : ℕ) (w : World)
    → is_complete dto ≡ true
    → map_option to_base_address (saved_row dto user_id w) ≡ dto
unfolding saved_row
saved_row_back none user_id w complete = refl
saved_row_back (some a) user_id w complete = ap some (address_row_back a w.next_id user_id complete)
