-- ===== src/Repository/Tables.antt =====
-- The tables of orders and users as tables of a repository (src/modules/orders/providers/repositories/order.repository.ts,
-- src/modules/users/providers/repositories/user.repository.ts).
use dispatch_api.Prelude.{ℕ, ◌≡◌, refl, sym, true, some, distinct}
use dispatch_api.Entities.{Db, Order, User}
use dispatch_api.Orders.Store.{order_by_id}
use dispatch_api.Users.{row_by_id}
use dispatch_api.Repository.{BaseEntity, find_by_id}
use dispatch_api.Repository.Reads.{find_by_id_lem}

instance abbrev pub order_entity : BaseEntity Order
order_entity = record {
  id = λ o. o.id;
  deleted_at = λ o. o.deleted_at;
  mark_deleted = λ now o. record o { deleted_at = some now };
  id-mark_deleted = λ now o. refl;
}

instance abbrev pub user_entity : BaseEntity User
user_entity = record {
  id = λ u. u.id;
  deleted_at = λ u. u.deleted_at;
  mark_deleted = λ now u. record u { deleted_at = some now };
  id-mark_deleted = λ now u. refl;
}

-- The services read one order and one user as the repository does.
pub lookups_lem :
    (id : ℕ) (db : Db)
    → distinct (λ (o : Order). o.id) db.orders ≡ true
    → distinct (λ (u : User). u.id) db.users ≡ true
    → (order_by_id id db ≡ find_by_id id db.orders) × (row_by_id id db ≡ find_by_id id db.users)
lookups_lem id db orders users =
    (sym (find_by_id_lem id db.orders orders), sym (find_by_id_lem id db.users users))
