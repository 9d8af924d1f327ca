-- ===== src/Seed.antt =====
-- The data that a development database begins with
-- (src/shared/providers/services/seed-data.service.ts). A uuid is the number that it writes in base 16.
pub mod Admin
pub mod Catalogue
use text.Mathlib.Text.{◌==◌ as text_eq}
use dispatch_api.Prelude.{
  ℕ, Bool, true, false, ◌&&◌, ◌||◌, ◌==◌, Option, none, some, if◌then◌else◌, List, [], ◌∷◌, ◌++◌,
  String, exists,
}
use dispatch_api.Prelude.Int.{pos}
use dispatch_api.Enums.{admin}
use dispatch_api.Entities.{User, Item, Db, is_live}
use dispatch_api.World.{
  unique_violation, M, Void, pure, gets, query, raise_if, write, fresh, for_each, ◌>>=◌, ◌>>◌,
}
use dispatch_api.Payments.{find_customer_by_user_id}
use dispatch_api.Users.Accounts.{has_email}

-- MOCK_ADMIN_USER
abbrev pub mock_admin_id : ℕ
mock_admin_id = 264305989103650282954648176149764262689

abbrev pub mock_admin_email : String
mock_admin_email = "joao.silva@email.com"

abbrev pub mock_admin_user : ℕ → String → ℕ → User
mock_admin_user now password customer_id = record {
  id = mock_admin_id;
  created_at = now;
  deleted_at = none;
  name = "João Silva Admin";
  email = mock_admin_email;
  password = password;
  role = admin;
  refresh_token = none;
  language = "en";
  customer_id = some customer_id;
}

-- An element of MOCK_ITEMS.
pub record MockItem : Type 0 where
  pub id : ℕ
  pub name : String
  pub description : String
  pub stock : ℕ
  pub price : ℕ

-- MOCK_ITEMS
abbrev pub mock_items : List MockItem
mock_items =
    record {
      id = 41343930308266179277822316552766341121;
      name = "Chapinha Prancha Cabelo Profissional Nano Titanium 450F BIVOLT atlas";
      description = "Chapinha Prancha Cabelo Profissional Nano Titanium 450F BIVOLT atlas.";
      stock = 50;
      price = 8488;
    }
    ∷ record {
      id = 41343930308266179277822316552766341122;
      name = "Panela de Pressão Elétrica Philco 4L 14 funções PPPE04A";
      description = "Panela de Pressão Elétrica Philco 4L 14 funções PPPE04A.";
      stock = 80;
      price = 27541;
    }
    ∷ record {
      id = 41343930308266179277822316552766341123;
      name = "Cooktop a Gás Philco 4 Queimadores Superautomático PCT04TC Bivolt";
      description = "Cooktop a gás com 4 queimadores, modelo superautomático PCT04TC, bivolt.";
      stock = 120;
      price = 38941;
    }
    ∷ record {
      id = 41343930308266179277822316552766341124;
      name = "Kit 4 Alto Falantes Triaxiais JBL 6TRMS80 80 Watts Rms + Módulo Taramps TS400x4";
      description =
          "Kit 4 Alto Falantes Triaxiais JBL 6TRMS80 80 Watts Rms + Módulo Taramps TS400x4.";
      stock = 35;
      price = 70290;
    }
    ∷ []

-- `userRepository.insert`: the primary key and the unique index on the emails count removed rows too.
unfoldable pub insert_mock_user : User → M Void
insert_mock_user u = do
  taken ← query (λ db. exists (λ x. x.id == u.id || has_email u.email x) db.users)
  raise_if taken unique_violation
  write (λ db. record db { users = db.users ++ (u ∷ []) })

-- ensureMockAdminCustomer: a customer that is not found makes findCustomerByUserId throw, so its answer
-- is never empty and the code after `if (!customer)` is not reached.
unfoldable pub ensure_mock_admin_customer : M ℕ
unfolding find_customer_by_user_id
ensure_mock_admin_customer = do customer ← find_customer_by_user_id mock_admin_id; pure customer.id

-- `idExists || emailExists`
abbrev pub mock_admin_exists : Db → Bool
mock_admin_exists db =
    exists (λ u. is_live u.deleted_at && u.id == mock_admin_id) db.users
    || exists (λ u. is_live u.deleted_at && has_email mock_admin_email u) db.users

-- What seedMockAdminUser does when the account is not there.
unfoldable pub make_mock_admin_user : M Void
unfolding ensure_mock_admin_customer insert_mock_user
make_mock_admin_user = do
  customer_id ← ensure_mock_admin_customer
  salt ← fresh
  password ← gets (λ w. w.env.hash salt "password123")
  now ← gets (λ w. w.now)
  insert_mock_user (mock_admin_user now password customer_id)

-- seedMockAdminUser
unfoldable pub seed_mock_admin_user : M Void
unfolding make_mock_admin_user
seed_mock_admin_user = do
  user_exists ← query mock_admin_exists
  if user_exists then pure tt else make_mock_admin_user

-- `itemRepository.existsBy({ id })`
abbrev pub item_exists : ℕ → Db → Bool
item_exists id db = exists (λ i. is_live i.deleted_at && i.id == id) db.items

abbrev pub item_of : ℕ → MockItem → Item
item_of now m = record {
  id = m.id;
  created_at = now;
  deleted_at = none;
  name = m.name;
  description = m.description;
  stock = pos m.stock;
  price = m.price;
  price_payment_id = none;
}

-- `itemRepository.insert`: the primary key counts removed rows too.
unfoldable pub insert_item : MockItem → M Void
insert_item m = do
  taken ← query (λ db. exists (λ (i : Item). i.id == m.id) db.items)
  raise_if taken unique_violation
  now ← gets (λ w. w.now)
  write (λ db. record db { items = db.items ++ (item_of now m ∷ []) })

unfoldable pub seed_mock_item : MockItem → M Void
unfolding insert_item
seed_mock_item m = do
  exists_already ← query (item_exists m.id)
  if exists_already then pure tt else insert_item m

-- seedMockItems
unfoldable pub seed_mock_items : M Void
unfolding seed_mock_item
seed_mock_items = for_each seed_mock_item mock_items

-- run, given the SEED_TEST_DATA of the configuration
unfoldable pub run : Option String → M Void
unfolding seed_mock_admin_user seed_mock_items
run none = pure tt
run (some setting) =
    if text_eq setting "true" then seed_mock_admin_user >> seed_mock_items else pure tt
