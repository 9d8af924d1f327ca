-- ===== src/Orders/Jobs/Once.antt =====
-- A job of the order queue that runs twice does its work once: the second run finds the status that
-- the first has written.
use dispatch_api.Prelude.{
  ℕ, ◌==◌, modify_where, ◌≡◌, refl, true, false, none, some, Option-cases, Bool-cases, inl, inr,
  find-modify_where, key-find, arith,
}
use dispatch_api.Enums.{
  NotificationEvent, OrderStatus, order_refunded, processed, canceled, refunded,
}
use dispatch_api.Entities.{Order}
use dispatch_api.World.{World, ok, view, Result-cases}
use dispatch_api.Guard.{lock, transaction, opened}
use dispatch_api.Outbox
use dispatch_api.Items.Levels.{FreeItems}
use dispatch_api.Payments.{create_refund}
use dispatch_api.Payments.Refunds.{create_refund-orders}
use dispatch_api.Dtos.{refund_order_key}
use dispatch_api.Orders.Policy.{can_transition}
use dispatch_api.Orders.Store.{LoadedOrder, order_by_id, load, update_status, user_id_of}
use dispatch_api.Orders.Service.{dispatch_notification}
use dispatch_api.Orders.Jobs.{
  OrderJob, process, cancel, refund, execute, goal, process_execute, cancel_execute, refund_execute,
  validate_and_retrieve_order, finish, update_order_with_lock,
}
use dispatch_api.Orders.Jobs.Inventory.{release_all-items, release_inventory_lem, catalog_of}
use dispatch_api.Orders.Jobs.Cancel.{lines_of}

-- A job that finds its order missing does nothing at all and reports success.
execute_missing :
    (k : OrderJob) (id : ℕ) (w : World)
    → order_by_id id w.committed ≡ none
    → execute k id w ≡ (ok tt, w)
unfolding execute process_execute cancel_execute refund_execute transaction
    validate_and_retrieve_order
execute_missing process id w missing = ground arith
execute_missing cancel id w missing = ground arith
execute_missing refund id w missing = ground arith

-- A job that finds its order in a status that has no edge to its own does nothing at all, and
-- reports success.
pub execute_skips :
    (k : OrderJob) (id : ℕ) (w : World) (o : Order)
    → order_by_id id w.committed ≡ some o
    → can_transition o.status (goal k) ≡ false
    → execute k id w ≡ (ok tt, w)
unfolding execute process_execute cancel_execute refund_execute transaction
    validate_and_retrieve_order
execute_skips process id w o found refused = ground arith
execute_skips cancel id w o found refused = ground arith
execute_skips refund id w o found refused = ground arith

process-order :
    (id : ℕ) (w : World) (o : Order)
    → (process_execute id w).0 ≡ ok tt
    → order_by_id id w.committed ≡ some o
    → can_transition o.status processed ≡ true
    → order_by_id id (process_execute id w).1.committed ≡ some (record o { status = processed })
unfolding process_execute transaction validate_and_retrieve_order finish update_order_with_lock lock
    update_status user_id_of dispatch_notification Outbox.add
process-order id w o done found allowed = ground (
  arith,
  find-modify_where (λ (x : Order). x.id) (λ x. record x { status = processed }) w.committed.orders
      o.id id (λ x. refl),
  key-find (λ (x : Order). x.id) w.committed.orders id {r = o},
)

-- The orders after the last part of a job, if it returns.
finish-orders :
    (l : LoadedOrder) (status : OrderStatus) (event : NotificationEvent) (w : World)
    → (finish l status event w).0 ≡ ok tt
    → (view (finish l status event w).1).orders
      ≡ modify_where (λ x. x.id == l.order.id) (λ x. record x { status = status }) (view w).orders
unfolding finish update_order_with_lock lock update_status user_id_of dispatch_notification
    Outbox.add
finish-orders l status event w done = ground arith

refund-order :
    (id : ℕ) (w : World) (o : Order)
    → (refund_execute id w).0 ≡ ok tt
    → order_by_id id w.committed ≡ some o
    → can_transition o.status refunded ≡ true
    → order_by_id id (refund_execute id w).1.committed ≡ some (record o { status = refunded })
unfolding refund_execute transaction validate_and_retrieve_order
refund-order id w o done found allowed =
    let l = load w.committed o in
    let asked = create_refund o.id o.total (refund_order_key o.id) (opened w) in
    elim (Result-cases asked.0) [
      | inl (r, given) ↦ ground (
        arith,
        given,
        finish-orders l refunded order_refunded asked.1,
        create_refund-orders o.id o.total (refund_order_key o.id) (opened w),
        find-modify_where (λ (x : Order). x.id) (λ x. record x { status = refunded })
            w.committed.orders o.id id (λ x. refl),
        key-find (λ (x : Order). x.id) w.committed.orders id {r = o},
      )
      | inr (e, thrown) ↦ absurd (ground (arith, thrown))
    ]

no_way_back : (k : OrderJob) → can_transition (goal k) (goal k) ≡ false
unfolding can_transition
no_way_back process = refl
no_way_back cancel = refl
no_way_back refund = refl

cancel-order :
    (id : ℕ) (w : World) (o : Order)
    → FreeItems w
    → (cancel_execute id w).0 ≡ ok tt
    → order_by_id id w.committed ≡ some o
    → can_transition o.status canceled ≡ true
    → order_by_id id (cancel_execute id w).1.committed ≡ some (record o { status = canceled })
unfolding cancel_execute transaction validate_and_retrieve_order finish update_order_with_lock lock
    update_status user_id_of dispatch_notification Outbox.add
cancel-order id w o free_items done found allowed = ground (
  arith,
  release_inventory_lem (load w.committed o) (opened w) free_items,
  release_all-items (catalog_of (lines_of o w.committed) w.committed) (lines_of o w.committed)
      w.committed,
  find-modify_where (λ (x : Order). x.id) (λ x. record x { status = canceled }) w.committed.orders
      o.id id (λ x. refl),
  key-find (λ (x : Order). x.id) w.committed.orders id {r = o},
)

-- After a job that has returned, its order has the job's status.
execute-order :
    (k : OrderJob) (id : ℕ) (w : World) (o : Order)
    → FreeItems w
    → (execute k id w).0 ≡ ok tt
    → order_by_id id w.committed ≡ some o
    → can_transition o.status (goal k) ≡ true
    → order_by_id id (execute k id w).1.committed ≡ some (record o { status = goal k })
unfolding execute
execute-order process id w o free done found allowed = process-order id w o done found allowed
execute-order cancel id w o free done found allowed = cancel-order id w o free done found allowed
execute-order refund id w o free done found allowed = refund-order id w o done found allowed

-- A job that has returned, with the locks of the items free, and is run again returns at once,
-- and changes nothing: neither the database nor the gateway, the locks or the cache.
pub execute_twice :
    (k : OrderJob) (id : ℕ) (w : World)
    → FreeItems w
    → (execute k id w).0 ≡ ok tt
    → execute k id (execute k id w).1 ≡ (ok tt, (execute k id w).1)
execute_twice k id w free done = elim (Option-cases (order_by_id id w.committed)) [
  | inl missing ↦ rw (execute_missing k id w missing) (execute_missing k id w missing)
  | inr (o, found) ↦ elim (Bool-cases (can_transition o.status (goal k))) [
    | inl allowed ↦
        execute_skips k id (execute k id w).1 (record o { status = goal k })
          (execute-order k id w o free done found allowed) (no_way_back k)
    | inr refused ↦ rw (execute_skips k id w o found refused) (execute_skips k id w o found refused)
  ]
]
