-- ===== src/Outbox/Cycle.antt =====
-- What a cycle of the outbox does: src/shared/modules/outbox/providers/outbox-cron.processor.ts.
use mathlib.Core.List.{append-nil}
use dispatch_api.Prelude.{
  ◌≡◌, some, refl, true, false, not, List, [], ◌∷◌, ◌++◌, keep, take, arith, ◌⊎◌, inl, inr,
  Bool-cases,
}
use dispatch_api.Entities.{Db, Outbox, QueueJob}
use dispatch_api.World.{
  World, view, QueueName, orders, payments, effects, users, queue_unavailable, ok, err,
}
use dispatch_api.Guard.{transaction, opened}
use dispatch_api.Outbox.Add.{schedule}
use dispatch_api.Outbox.Dispatcher.{partition}
use dispatch_api.Outbox.Cron.{
  batch_limit, sort_by_time, find_and_lock_batch, has_id, add_bulk, dispatch, process_batch,
  process_work, process, enqueue, remove_messages,
}

-- The messages that the next cycle takes.
unfoldable pub batch : World → List Outbox
unfolding sort_by_time
batch w = take batch_limit (sort_by_time w.committed.outbox)

-- Each queue has got its part of the messages, at its end and in their order.
pub record Delivered (ms : List Outbox) (w w' : World) : Type 0 where
  pub order_jobs : w'.order_queue ≡ w.order_queue ++ (partition ms).order_queue_msg
  pub payment_jobs : w'.payment_queue ≡ w.payment_queue ++ (partition ms).payment_queue_msg
  pub effect_jobs : w'.effect_queue ≡ w.effect_queue ++ (partition ms).effect_queue_msg
  pub user_jobs : w'.user_queue ≡ w.user_queue ++ (partition ms).user_queue_msg

add_bulk_lem :
    (name : QueueName) (jobs : List QueueJob) (w : World)
    → (add_bulk name jobs w ≡ (ok tt, enqueue name jobs w))
      ⊎ (add_bulk name jobs w ≡ (err queue_unavailable, w))
unfolding add_bulk
add_bulk_lem orders [] w = inl (simp append-nil)
add_bulk_lem payments [] w = inl (simp append-nil)
add_bulk_lem effects [] w = inl (simp append-nil)
add_bulk_lem users [] w = inl (simp append-nil)
add_bulk_lem name (j ∷ js) w = elim (Bool-cases (w.env.accepts name (j ∷ js))) [
  | inl taken ↦ inl (rw taken refl)
  | inr refused ↦ inr (rw refused refl)
]

-- The state with all four parts of a batch in the queues.
abbrev pub delivered : List Outbox → World → World
delivered ms w =
    let plan = partition ms in
    enqueue users plan.user_queue_msg (
      enqueue effects plan.effect_queue_msg
        (enqueue payments plan.payment_queue_msg (enqueue orders plan.order_queue_msg w)))

dispatch_lem :
    (ms : List Outbox) (w : World)
    → (dispatch ms w ≡ (ok tt, delivered ms w))
      ⊎ ((dispatch ms w).0 ≡ err queue_unavailable)
        × ((dispatch ms w).1.committed ≡ w.committed)
        × ((dispatch ms w).1.tx ≡ w.tx)
unfolding dispatch
dispatch_lem ms w =
    let plan = partition ms in
    let w1 = enqueue orders plan.order_queue_msg w in
    let w2 = enqueue payments plan.payment_queue_msg w1 in
    let w3 = enqueue effects plan.effect_queue_msg w2 in
    elim (add_bulk_lem orders plan.order_queue_msg w) [
      | inr stop ↦ inr (ground arith)
      | inl at1 ↦ elim (add_bulk_lem payments plan.payment_queue_msg w1) [
        | inr stop ↦ inr (ground arith)
        | inl at2 ↦ elim (add_bulk_lem effects plan.effect_queue_msg w2) [
          | inr stop ↦ inr (ground arith)
          | inl at3 ↦ elim (add_bulk_lem users plan.user_queue_msg w3) [
            | inr stop ↦ inr (ground arith)
            | inl at4 ↦ inl (ground arith)
          ]
        ]
      ]
    ]

-- What the work of a batch leaves: nothing if it has thrown, or all.
record Sent (ms : List Outbox) (w w' : World) : Type 0 where
  pub jobs : Delivered ms w w'
  pub rows : view w' ≡ remove_messages ms (view w)
  pub kept : w'.committed ≡ w.committed

process_batch_lem :
    (ms : List Outbox) (w : World) (outer : Db → Db)
    → w.tx ≡ some outer
    → let (r, w') = process_batch ms w in
      ((r ≡ ok tt) × Sent ms w w') ⊎ ((view w' ≡ view w) × (w'.committed ≡ w.committed))
unfolding process_batch schedule
process_batch_lem [] w outer begun = inr (ground arith)
process_batch_lem (m ∷ ms) w outer begun = elim (dispatch_lem (m ∷ ms) w) [
  | inl all ↦ inl (
    ground arith,
    record {
      jobs = record {
        order_jobs = ground arith;
        payment_jobs = ground arith;
        effect_jobs = ground arith;
        user_jobs = ground arith;
      };
      rows = ground arith;
      kept = ground arith;
    },
  )
  | inr stopped ↦ inr (ground arith)
]

-- A cycle that may run returns, whatever the queues answer, and leaves the flag down. Either the
-- database is as it was, so that the next cycle takes the same messages again, or every queue has got its part
-- of the batch and the rows of the batch, and no others, are gone from the outbox.
pub process_loses_nothing :
    (w : World)
    → w.is_shutting_down ≡ false
    → w.is_processing ≡ false
    → let (r, w') = process w in
      (r ≡ ok tt)
      × (w'.is_processing ≡ false)
      × ((w'.committed ≡ w.committed)
          ⊎ (Delivered (batch w) w w'
              × (w'.committed.outbox ≡ keep (λ m. not (has_id (batch w) m.id)) w.committed.outbox)))
unfolding process process_work transaction find_and_lock_batch batch
process_loses_nothing w running idle =
    elim (process_batch_lem (batch w) (record (opened w) { is_processing = true }) (λ db. db)
      refl) [
        | inl (done, sent) ↦ (
          ground arith,
          ground arith,
          inr (
            record {
              order_jobs = grind (arith, sent.jobs.order_jobs);
              payment_jobs = grind (arith, sent.jobs.payment_jobs);
              effect_jobs = grind (arith, sent.jobs.effect_jobs);
              user_jobs = grind (arith, sent.jobs.user_jobs);
            },
            grind (arith, sent.rows),
          ),
        )
        | inr stopped ↦ (ground arith, ground arith, inl (ground arith))
      ]
