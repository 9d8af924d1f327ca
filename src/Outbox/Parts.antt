-- ===== src/Outbox/Parts.antt =====
-- The parts that the dispatcher makes of a batch
-- (src/shared/modules/outbox/helpers/outbox-dispatcher.ts).
use dispatch_api.Prelude.{
  ℕ, ◌+◌, ◌==◌, ◌≡◌, refl, Bool, true, false, ◌&&◌, ◌||◌, List, [], ◌∷◌, map, if◌then◌else◌, arith,
}
use dispatch_api.Enums.{OutboxType, order_ship, order_deliver, type_code}
use dispatch_api.Entities.{
  Outbox, QueueJob, JobBody, process_order, cancel_order, refund_order, create_customer,
  update_customer, delete_customer, update_user, notify_user, body_type,
}
use dispatch_api.Outbox.Dispatcher.{
  partition, to_queue_job, is_order_type, is_payment_type, is_effects_type, is_user_type,
}

-- The type of a row is the one of the payload in it, as `add` writes it.
abbrev pub all_typed : List Outbox → Bool
all_typed [] = true
all_typed (m ∷ ms) = type_code m.type == type_code (body_type m.payload.body) && all_typed ms

abbrev pub count : (QueueJob → Bool) → List QueueJob → ℕ
count p [] = 0
count p (j ∷ js) = (if p j then 1 else 0) + count p js

no_body : (b : JobBody) → (type_code (body_type b) == 1) || (type_code (body_type b) == 2) ≡ false
no_body (process_order _) = refl
no_body (cancel_order _) = refl
no_body (refund_order _) = refl
no_body (create_customer _) = refl
no_body (update_customer _) = refl
no_body (delete_customer _) = refl
no_body (update_user _ _) = refl
no_body (notify_user _ _ _ _) = refl

-- The type of a payload belongs to one part.
in_one_part :
    (t : OutboxType) (b : JobBody)
    → type_code t == type_code (body_type b) ≡ true
    → (if is_order_type t then 1 else 0)
        + (if is_payment_type t then 1 else 0)
        + (if is_effects_type t then 1 else 0)
        + (if is_user_type t then 1 else 0)
      ≡ 1
in_one_part order_ship b same = absurd (ground (arith, no_body b))
in_one_part order_deliver b same = absurd (ground (arith, no_body b))
in_one_part _ b same = refl

-- No message of a batch is lost or sent twice, whatever jobs are counted: those in the four parts are
-- as many as those of the batch, if every row has the type of its payload.
pub partition_keeps_all :
    (p : QueueJob → Bool) (ms : List Outbox)
    → all_typed ms ≡ true
    → let plan = partition ms in
      count p plan.order_queue_msg
        + count p plan.payment_queue_msg
        + count p plan.effect_queue_msg
        + count p plan.user_queue_msg
      ≡ count p (map to_queue_job ms)
unfolding partition
partition_keeps_all p [] typed = refl
partition_keeps_all p (m ∷ ms) typed =
    ground (arith, in_one_part m.type m.payload.body, partition_keeps_all p ms)
