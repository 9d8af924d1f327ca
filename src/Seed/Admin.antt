-- ===== src/Seed/Admin.antt =====
-- How the seeding of the administrator ends (seedMockAdminUser in
-- src/shared/providers/services/seed-data.service.ts).
use dispatch_api.Prelude.{
  ℕ, ◌≡◌, ap, exists_weaken, ◌||◌, true, false, ◌==◌, exists, is_some, arith, Bool-cases, inl, inr,
  Option-cases,
}
use dispatch_api.Entities.{Db, User}
use dispatch_api.World.{World, view, is_ok}
use dispatch_api.Payments.{customer_by_user, find_customer_by_user_id}
use dispatch_api.Users.Accounts.{has_email}
use dispatch_api.Seed.{
  mock_admin_id, mock_admin_email, mock_admin_exists, seed_mock_admin_user, make_mock_admin_user,
  ensure_mock_admin_customer, insert_mock_user,
}

-- The foreign key from the customers to the users: a customer that is found has a row in the table of the
-- users, removed or not.
unfoldable pub CustomersHaveUsers : Db → Type 0
CustomersHaveUsers db =
    (user_id : ℕ)
    → is_some (customer_by_user user_id db) ≡ true
    → exists (λ u. u.id == user_id) db.users ≡ true

-- Making the account needs the customer, the customer its user, and a user's row keeps the account from
-- being inserted.
make_is_refused :
    (w : World)
    → CustomersHaveUsers (view w)
    → let (r, w') = make_mock_admin_user w in (view w' ≡ view w) × (is_ok r ≡ false)
unfolding CustomersHaveUsers make_mock_admin_user ensure_mock_admin_customer insert_mock_user
    find_customer_by_user_id
make_is_refused w references = elim (Option-cases (customer_by_user mock_admin_id (view w))) [
  | inl missing ↦ ground (arith, missing)
  | inr (c, found) ↦
      let has_row = references mock_admin_id (ap is_some found) in
      let taken =
        exists_weaken (λ (u : User). u.id == mock_admin_id)
          (λ u. u.id == mock_admin_id || has_email mock_admin_email u) (view w).users
          (λ u same. ground arith) has_row in
      ground (arith, found, taken)
]

-- The seeding of the administrator never changes the database: it returns if the account is there, and
-- throws if it is not, whatever else the database holds.
pub seed_admin_iff :
    (w : World)
    → CustomersHaveUsers (view w)
    → let (r, w') = seed_mock_admin_user w in
      (view w' ≡ view w) × (is_ok r ≡ mock_admin_exists (view w))
unfolding seed_mock_admin_user
seed_admin_iff w references = elim (Bool-cases (mock_admin_exists (view w))) [
  | inl here ↦ rw here (ground arith)
  | inr gone ↦ rw gone (ground (arith, make_is_refused w references))
]
