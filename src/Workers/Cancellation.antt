-- ===== src/Workers/Cancellation.antt =====
-- The cancellation of an order from the request to its job: cancel of src/modules/orders/orders.service.ts, the outbox
-- cycle, and CancelOrderJobStrategy.
use dispatch_api.Prelude.{
  ℕ, ◌+◌, ◌≡◌, refl, ap, ◌∙◌, true, false, some, [], ◌∷◌, ◌++◌, key-find, or_else, ltb, arith,
}
use dispatch_api.Prelude.Int.{pos, ◌+ℤ◌}
use dispatch_api.Enums.{canceled, completed}
use dispatch_api.Entities.{Order, Item, User, cancel_order, is_live}
use dispatch_api.Dtos.{job_value}
use dispatch_api.World.{World, QueueName, ok}
use dispatch_api.Guard.{is_held, lock, transaction, lock_and_transaction}
use dispatch_api.Items.{find_item}
use dispatch_api.Items.Levels.{FreeItems, stock_of}
use dispatch_api.Jobs.{is_taken, job_lock}
use dispatch_api.Jobs.Marker.{marker, markers_live, status_of}
use dispatch_api.Outbox
use dispatch_api.Cache.Ttl
use dispatch_api.Outbox.Cron.{process}
use dispatch_api.Outbox.Waiting.{message_of, push_message}
use dispatch_api.Orders.Policy.{can_transition}
use dispatch_api.Orders.Store.{order_by_id, user_by_id, find_order, get_order_or_throw}
use dispatch_api.Orders.Service.{update_lock, cancel, cancel_work, require_transition}
use dispatch_api.Orders.Jobs.{execute, OrderJob}
use dispatch_api.Orders.Jobs.Inventory.{quantity_of}
use dispatch_api.Orders.Jobs.Cancel.{
  lines_of, cancel_restores_stock, cancel-env, cancel_ok, cancel-order,
}
use dispatch_api.Workers.{worker, order_key}
use dispatch_api.Workers.Routing.{job_of}
use dispatch_api.Workers.Carried.{Clear, at_task, row_is_carried_out}

-- The state after a request that is accepted.
abbrev requested : ℕ → World → World
requested id w = record w {
  committed = push_message (message_of (cancel_order id) w) w.committed;
  next_id = w.next_id + 3;
  ticks = w.ticks + 1;
}

cancel_lem :
    (id : ℕ) (w : World) (o : Order)
    → order_by_id id w.committed ≡ some o
    → can_transition o.status canceled ≡ true
    → is_held (update_lock id) w.held ≡ false
    → cancel id w ≡ (ok tt, requested id w)
unfolding cancel cancel_work lock_and_transaction lock transaction get_order_or_throw find_order
    require_transition Outbox.add
cancel_lem id w o found allowed free = ground arith

-- A state in which an order can be cancelled, and in which nothing else waits in the outbox.
pub record Cancellable (id : ℕ) (o : Order) (u : User) (w : World) : Type 0 where
  pub found : order_by_id id w.committed ≡ some o
  pub allowed : can_transition o.status canceled ≡ true
  pub customer : user_by_id o.user_id w.committed ≡ some u
  pub free : is_held (update_lock id) w.held ≡ false
  pub free_items : FreeItems w
  pub alone : w.committed.outbox ≡ []
  pub running : w.is_shutting_down ≡ false
  pub idle : w.is_processing ≡ false
  pub accepting : w.env.accepts QueueName.orders (job_of (cancel_order id) w ∷ []) ≡ true
  pub unmarked : is_taken (marker (order_key (job_of (cancel_order id) w)) w) ≡ false
  pub unlocked : is_held (job_lock (job_of (cancel_order id) w).job_id) w.held ≡ false
  pub live : markers_live w ≡ true

module _ (id : ℕ) (o : Order) (u : User) (w : World) (c : Cancellable id o u w) where
  requested-Clear : Clear (cancel_order id) w (requested id w)
  requested-Clear = record {
    alone = ap (λ ms. ms ++ (message_of (cancel_order id) w ∷ [])) c.alone;
    running = c.running;
    idle = c.idle;
    accepting = c.accepting;
    unmarked = c.unmarked;
    unlocked = c.unlocked;
  }

  abbrev task_begins : World
  task_begins = at_task (cancel_order id) w (requested id w)

  own_lock : is_held (update_lock o.id) task_begins.held ≡ false
  own_lock =
      ground (arith, key-find (λ (x : Order). x.id) w.committed.orders id {r = o}, c.found, c.free)

  items_free : FreeItems task_begins
  items_free i = ground (arith, c.free_items i)

  task-live : markers_live (execute OrderJob.cancel id task_begins).1 ≡ true
  unfolding execute
  task-live =
      ap (λ env. ltb 0 (or_else env.cache_ttl Ttl.default_ttl))
        (cancel-env id task_begins o u c.found c.allowed c.customer items_free own_lock)
      ∙ c.live

  -- If an order is there whose status the policy lets be cancelled and whose user is not removed, and
  -- its lock and those of the items are free; if nothing else waits in the outbox, no cycle runs, the
  -- process is not shutting down and the queue takes the job; and if the job has neither marker nor
  -- lock and markers live for some time: then the request only queues the job and leaves the order as
  -- it is, one cycle hands the job to the queue, and its worker cancels the order, gives every live
  -- item what the order's lines hold of it, and marks the job as done.
  pub cancellation_is_carried_out :
      let job = job_of (cancel_order id) w in
      let (r, w1) = cancel id w in
      let (_, w2) = process w1 in
      let (r', w3) = worker QueueName.orders job w2 in
      (r ≡ ok tt)
      × (order_by_id id w1.committed ≡ some o)
      × (w2.order_queue ≡ w.order_queue ++ (job ∷ []))
      × (r' ≡ ok tt)
      × (order_by_id id w3.committed ≡ some (record o { status = canceled }))
      × ((j : ℕ) (i : Item)
          → find_item j w.committed.items ≡ some i
          → is_live i.deleted_at ≡ true
          → stock_of j w3.committed
            ≡ some (i.stock +ℤ pos (quantity_of j (lines_of o w.committed))))
      × (marker (order_key job) w3 ≡ some (job_value completed))
  unfolding execute
  cancellation_is_carried_out =
      let (_, queued, _, _, result, rows, marked) =
        row_is_carried_out (cancel_order id) w (requested id w) requested-Clear task-live in
      let restored = λ (j : ℕ) (i : Item).
        cancel_restores_stock id task_begins o u j i c.found c.allowed c.customer items_free
          own_lock in
      let done = cancel_ok id task_begins o u c.found c.allowed c.customer items_free own_lock in
      let is_canceled =
        cancel-order id task_begins o u c.found c.allowed c.customer items_free own_lock in
      rw (cancel_lem id w o c.found c.allowed c.free) (
        refl,
        c.found,
        queued,
        result ∙ done,
        ap (order_by_id id) rows ∙ is_canceled,
        (λ j i here alive. ap (stock_of j) rows ∙ (restored j i here alive).2),
        marked ∙ ap (λ r. some (job_value (status_of r))) done,
      )
