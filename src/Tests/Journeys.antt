-- ===== src/Tests/Journeys.antt =====
-- Runs from the outbox to the end of a job.
use dispatch_api.Users.{update_user_execute, row_by_id}
use dispatch_api.Payments.Rows.{customer_row}
use dispatch_api.Payments.Jobs.{params_of}
use dispatch_api.Dtos.{customers_create, create_customer_key, job_value}
use dispatch_api.Workers.Linked.{Linkable, making, linking_job, customer_is_linked}
use dispatch_api.Guard.{lock, transaction}
use dispatch_api.Outbox.Waiting.{message_of}
use dispatch_api.Workers.Carried.{Clear, at_task, row_is_carried_out}
use dispatch_api.Workers.{user_key, worker, order_key}
use dispatch_api.Workers.Routing.{task, job_of}
use dispatch_api.Entities.{
  JobBody, update_user, create_customer, UserSnapshot, Item, cancel_order, is_live,
}
use dispatch_api.World.{users, payments, World, QueueName, ok}
use dispatch_api.Prelude.{ℕ, ◌≡◌, refl, true, none, some, [], ◌∷◌, ◌++◌, or_else}
use dispatch_api.Prelude.Int.{pos, ◌+ℤ◌}
use dispatch_api.Enums.{paid, canceled, completed}
use dispatch_api.Items.{find_item}
use dispatch_api.Items.Levels.{stock_of}
use dispatch_api.Jobs.Marker.{marker, status_of, markers_live}
use dispatch_api.Outbox.Cron.{process}
use dispatch_api.Orders.Store.{order_by_id}
use dispatch_api.Orders.Policy.{can_transition}
use dispatch_api.Orders.Service.{cancel}
use dispatch_api.Orders.Jobs.Inventory.{quantity_of}
use dispatch_api.Orders.Jobs.Cancel.{lines_of}
use dispatch_api.Workers.Cancellation.{Cancellable, cancellation_is_carried_out}
use dispatch_api.Tests.Data.{shop, db, order, ann}

-- The shop with nothing in its outbox.
abbrev quiet : World
quiet = record shop { committed = record db { outbox = [] } }

quiet-Cancellable : Cancellable 11 (order 11 paid) ann quiet
unfolding can_transition
quiet-Cancellable = record {
  found = refl;
  allowed = refl;
  customer = refl;
  free = refl;
  free_items = λ i. refl;
  alone = refl;
  running = refl;
  idle = refl;
  accepting = refl;
  unmarked = refl;
  unlocked = refl;
  live = refl;
}

cancellation_is_carried_out_example :
    let job = job_of (cancel_order 11) quiet in
    let (r, w1) = cancel 11 quiet in
    let (_, w2) = process w1 in
    let (r', w3) = worker QueueName.orders job w2 in
    (r ≡ ok tt)
    × (order_by_id 11 w1.committed ≡ some (order 11 paid))
    × (w2.order_queue ≡ job ∷ [])
    × (r' ≡ ok tt)
    × (order_by_id 11 w3.committed ≡ some (record (order 11 paid) { status = canceled }))
    × ((j : ℕ) (i : Item)
        → find_item j db.items ≡ some i
        → is_live i.deleted_at ≡ true
        → stock_of j w3.committed
          ≡ some (i.stock +ℤ pos (quantity_of j (lines_of (order 11 paid) db))))
    × (marker (order_key job) w3 ≡ some (job_value completed))
cancellation_is_carried_out_example =
    cancellation_is_carried_out 11 (order 11 paid) ann quiet quiet-Cancellable

-- The link of a customer waits alone.
abbrev linking : JobBody
linking = update_user 7 (some 960)

abbrev waiting : World
waiting = record quiet { committed = record db { outbox = message_of linking quiet ∷ [] } }

waiting-Clear : Clear linking quiet waiting
waiting-Clear = record {
  alone = refl;
  running = refl;
  idle = refl;
  accepting = refl;
  unmarked = refl;
  unlocked = refl;
}

linking_live : markers_live (task linking (at_task linking quiet waiting)).1 ≡ true
unfolding update_user_execute lock transaction
linking_live = refl

row_is_carried_out_example :
    let (r, w') = process waiting in
    let (result, left) = task linking (at_task linking quiet waiting) in
    let (r', w'') = worker users (job_of linking quiet) w' in
    (r ≡ ok tt)
    × (w'.user_queue ≡ job_of linking quiet ∷ [])
    × (w'.committed.outbox ≡ [])
    × ((at_task linking quiet waiting).correlation ≡ some (or_else quiet.correlation quiet.next_id))
    × (r' ≡ result)
    × (w''.committed ≡ left.committed)
    × (marker (user_key (job_of linking quiet)) w'' ≡ some (job_value (status_of result)))
row_is_carried_out_example = row_is_carried_out linking quiet waiting waiting-Clear linking_live

-- The customer of Ann waits alone to be made.
abbrev ann_now : UserSnapshot
ann_now = record { id = 7; name = "Ann"; email = "ann@shop"; customer_id = none; address = none }

abbrev newcomer : World
newcomer = record quiet {
  committed = record db { outbox = message_of (create_customer ann_now) quiet ∷ [] };
}

newcomer-Linkable : Linkable ann_now ann 960 quiet newcomer
newcomer-Linkable = record {
  clear = record {
    alone = refl;
    running = refl;
    idle = refl;
    accepting = refl;
    unmarked = refl;
    unlocked = refl;
  };
  calm = refl;
  found = refl;
  answered = refl;
  new = refl;
  free = refl;
  accepting = refl;
  unmarked = refl;
  unlocked = refl;
}

customer_is_linked_example :
    let customer = customer_row 960 7 (params_of ann_now) newcomer in
    let job1 = making ann_now quiet in
    let job2 = linking_job ann_now quiet newcomer in
    let (r1, v1) = process newcomer in
    let (r2, v2) = worker payments job1 v1 in
    let (r3, v3) = process v2 in
    let (r4, v4) = worker users job2 v3 in
    (v1.payment_queue ≡ job1 ∷ [])
    × (v3.user_queue ≡ job2 ∷ [])
    × (job2.payload.correlation_id ≡ job1.payload.correlation_id)
    × (r1 ≡ ok tt)
    × (r2 ≡ ok tt)
    × (r3 ≡ ok tt)
    × (r4 ≡ ok tt)
    × (v4.gateway_log ≡ customers_create (params_of ann_now) (create_customer_key 7) ∷ [])
    × (v4.committed.customers ≡ db.customers ++ (customer ∷ []))
    × (row_by_id 7 v4.committed ≡ some (record ann { customer_id = some customer.id }))
    × (v4.committed.outbox ≡ [])
    × (v4.held ≡ newcomer.held)
customer_is_linked_example = customer_is_linked ann_now ann 960 quiet newcomer newcomer-Linkable
