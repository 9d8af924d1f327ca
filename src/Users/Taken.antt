-- ===== src/Users/Taken.antt =====
-- Signing up with an email that a row has: publicCreate of src/modules/users/users.service.ts.
use dispatch_api.Prelude.{
  ℕ, ◌+◌, ◌≡◌, ◌&&◌, Bool, true, false, ltb, exists, none, find, if◌then◌else◌, List, [], ◌∷◌, ◌++◌,
  String, arith, Bool-cases, inl, inr, text_eq_refl,
}
use dispatch_api.Entities.{User, is_live}
use dispatch_api.Dtos.{CreateUser}
use dispatch_api.World.{World, err, user_create, email_already_exists, unique_violation}
use dispatch_api.Guard.{is_held, lock, transaction, lock_and_transaction}
use dispatch_api.Cache.{get_or_execute, get, has_key, is_fresh}
use dispatch_api.Users.Accounts.{
  public_create, public_create_work, public_create_once, save_new_user, save_users, email_exists,
  email_count, has_email,
}
use dispatch_api.Users.NewAccount.{new_account}

-- Some account that is not removed has the email.
abbrev pub in_use : String → List User → Bool
in_use email us = exists (λ u. is_live u.deleted_at && has_email email u) us

-- The rows with an email are one more when a row with it is added.
count-append :
    (u : User) (us : List User) → email_count u.email (us ++ (u ∷ [])) ≡ email_count u.email us + 1
count-append u [] = ground (arith, text_eq_refl u.email)
count-append u (x ∷ us) = ground (arith, count-append u us)

twice :
    (u : User) (us : List User)
    → ltb 0 (email_count u.email us) ≡ true
    → ltb 1 (email_count u.email (us ++ (u ∷ []))) ≡ true
twice u us h = ground (arith, count-append u us)

-- A new request to sign up with an email that some row has, when no such request holds its lock, is
-- refused, and neither the tables nor the locks are changed. The answer is that the email exists if
-- an account that is not removed has it; the email of removed accounts alone is refused by the
-- index.
pub sign_up_conflicts :
    (dto : CreateUser) (key : ℕ) (w : World)
    → is_held (record { space = user_create; id = key }) w.held ≡ false
    → find (λ e. has_key (public_create_once key) e && is_fresh w.now e) w.cache ≡ none
    → ltb 0 (email_count dto.email w.committed.users) ≡ true
    → let (r, w') = public_create dto key w in
      (r
        ≡ err
            (if in_use dto.email w.committed.users then email_already_exists else unique_violation))
      × (w'.committed ≡ w.committed)
      × (w'.held ≡ w.held)
unfolding public_create public_create_work lock_and_transaction lock transaction get_or_execute get
    email_exists save_new_user save_users
sign_up_conflicts dto key w free new taken =
    elim (Bool-cases (in_use dto.email w.committed.users)) [
      | inl used ↦
          ground (arith, free, new, used, twice (new_account dto w) w.committed.users taken)
      | inr removed ↦
          ground (arith, free, new, removed, twice (new_account dto w) w.committed.users taken)
    ]
