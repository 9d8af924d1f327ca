-- ===== src/Orders/Jobs/Cancel.antt =====
-- The cancel job: what it gives back, and what a failure in the middle leaves behind.
use dispatch_api.Prelude.{
  ℕ, ◌==◌, ◌≡◌, refl, true, false, some, List, keep, ap, ◌∙◌, map_option, find-modify_where,
  key-find, arith,
}
use dispatch_api.Prelude.Int.{pos, ◌+ℤ◌}
use dispatch_api.Enums.{canceled}
use dispatch_api.Entities.{Order, OrderItem, Item, User, Db, is_live}
use dispatch_api.World.{World, ok, err, lock_unavailable}
use dispatch_api.Guard.{is_held, lock, transaction, opened}
use dispatch_api.Outbox
use dispatch_api.Items.{find_item}
use dispatch_api.Items.Levels.{FreeItems, stock_of}
use dispatch_api.Orders.Policy.{can_transition}
use dispatch_api.Orders.Store.{order_by_id, user_by_id, load, update_status, user_id_of}
use dispatch_api.Orders.Service.{update_lock, dispatch_notification}
use dispatch_api.Orders.Jobs.{
  cancel_execute, validate_and_retrieve_order, finish, update_order_with_lock,
}
use dispatch_api.Orders.Jobs.Inventory.{
  quantity_of, release_all, release_all-items, release_inventory_lem, stock_of-restock, catalog_of,
}

-- The lines of an order.
abbrev pub lines_of : Order → Db → List OrderItem
lines_of o db = keep (λ i. i.order_id == o.id) db.order_items

-- The database with the stock of the order's lines given back.
abbrev restocked : Order → Db → Db
restocked o db = release_all (catalog_of (lines_of o db) db) (lines_of o db) db

-- The lock of the order is held by another operation: the job fails, and the stock that it gave back
-- stays given back, since each increment is a transaction of its own.
pub cancel_busy :
    (id : ℕ) (w : World) (o : Order)
    → order_by_id id w.committed ≡ some o
    → can_transition o.status canceled ≡ true
    → FreeItems w
    → is_held (update_lock o.id) w.held ≡ true
    → cancel_execute id w ≡ (err lock_unavailable, record w { committed = restocked o w.committed })
unfolding cancel_execute transaction validate_and_retrieve_order finish update_order_with_lock lock
cancel_busy id w o found allowed free busy =
    ground (arith, release_inventory_lem (load w.committed o) (opened w) free)

-- The state after a cancel job that has gone through.
module _ (id : ℕ) (w : World) (o : Order) (u : User) (found : order_by_id id w.committed ≡ some o)
    (allowed : can_transition o.status canceled ≡ true)
    (customer : user_by_id o.user_id w.committed ≡ some u) (free_items : FreeItems w)
    (free : is_held (update_lock o.id) w.held ≡ false) where
  pub cancel_ok : (cancel_execute id w).0 ≡ ok tt
  unfolding cancel_execute transaction validate_and_retrieve_order finish update_order_with_lock
      lock update_status user_id_of dispatch_notification Outbox.add
  cancel_ok = ground (arith, release_inventory_lem (load w.committed o) (opened w) free_items)

  cancel-items : (cancel_execute id w).1.committed.items ≡ (restocked o w.committed).items
  unfolding cancel_execute transaction validate_and_retrieve_order finish update_order_with_lock
      lock update_status user_id_of dispatch_notification Outbox.add
  cancel-items = ground (arith, release_inventory_lem (load w.committed o) (opened w) free_items)

  pub cancel-env : (cancel_execute id w).1.env ≡ w.env
  unfolding cancel_execute transaction validate_and_retrieve_order finish update_order_with_lock
      lock update_status user_id_of dispatch_notification Outbox.add
  cancel-env = ground (arith, release_inventory_lem (load w.committed o) (opened w) free_items)

  pub cancel-order :
      order_by_id id (cancel_execute id w).1.committed ≡ some (record o { status = canceled })
  unfolding cancel_execute transaction validate_and_retrieve_order finish update_order_with_lock
      lock update_status user_id_of dispatch_notification Outbox.add
  cancel-order = ground (
    arith,
    release_inventory_lem (load w.committed o) (opened w) free_items,
    release_all-items (catalog_of (lines_of o w.committed) w.committed) (lines_of o w.committed)
        w.committed,
    find-modify_where (λ (x : Order). x.id) (λ x. record x { status = canceled }) w.committed.orders
        o.id id (λ x. refl),
    key-find (λ (x : Order). x.id) w.committed.orders id {r = o},
  )

-- A cancel job that is allowed by the policy, whose user is there and which finds its locks free
-- succeeds: the order is cancelled, and every live item has its stock of before and what the
-- lines of the order hold of it, on however many lines.
pub cancel_restores_stock :
    (id : ℕ) (w : World) (o : Order) (u : User) (j : ℕ) (i : Item)
    → order_by_id id w.committed ≡ some o
    → can_transition o.status canceled ≡ true
    → user_by_id o.user_id w.committed ≡ some u
    → FreeItems w
    → is_held (update_lock o.id) w.held ≡ false
    → find_item j w.committed.items ≡ some i
    → is_live i.deleted_at ≡ true
    → let (r, w') = cancel_execute id w in
      (r ≡ ok tt)
      × (order_by_id id w'.committed ≡ some (record o { status = canceled }))
      × (stock_of j w'.committed ≡ some (i.stock +ℤ pos (quantity_of j (lines_of o w.committed))))
cancel_restores_stock id w o u j i found allowed customer free_items free here live = (
  cancel_ok id w o u found allowed customer free_items free,
  cancel-order id w o u found allowed customer free_items free,
  ap (λ is. map_option (λ (x : Item). x.stock) (find_item j is))
        (cancel-items id w o u found allowed customer free_items free)
      ∙ stock_of-restock (lines_of o w.committed) j i w.committed here live,
)

-- If another operation holds the lock of the order, the job fails and the order keeps its row, but
-- the stock that the job gave back stays given back: it is not rolled back with the rest.
pub cancel_busy_keeps_stock :
    (id : ℕ) (w : World) (o : Order) (j : ℕ) (i : Item)
    → order_by_id id w.committed ≡ some o
    → can_transition o.status canceled ≡ true
    → FreeItems w
    → is_held (update_lock o.id) w.held ≡ true
    → find_item j w.committed.items ≡ some i
    → is_live i.deleted_at ≡ true
    → let (r, w') = cancel_execute id w in
      (r ≡ err lock_unavailable)
      × (order_by_id id w'.committed ≡ some o)
      × (stock_of j w'.committed ≡ some (i.stock +ℤ pos (quantity_of j (lines_of o w.committed))))
cancel_busy_keeps_stock id w o j i found allowed free_items busy here live =
    rw (cancel_busy id w o found allowed free_items busy) (
      refl,
      rw
          (release_all-items (catalog_of (lines_of o w.committed) w.committed)
            (lines_of o w.committed) w.committed)
          found,
      stock_of-restock (lines_of o w.committed) j i w.committed here live,
    )
