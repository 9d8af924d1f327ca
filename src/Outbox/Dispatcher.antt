-- ===== src/Outbox/Dispatcher.antt =====
-- src/shared/modules/outbox/helpers/outbox-dispatcher.ts
use dispatch_api.Prelude.{Bool, true, false, List, map, keep}
use dispatch_api.Enums.{
  OutboxType, order_process, order_cancel, order_refund, payment_create_customer,
  payment_update_customer, payment_delete_customer, user_update, effects_notify_user,
}
use dispatch_api.Entities.{Outbox, QueueJob}

-- OutboxDispatchPlan
pub record DispatchPlan : Type 0 where
  pub order_queue_msg : List QueueJob
  pub payment_queue_msg : List QueueJob
  pub effect_queue_msg : List QueueJob
  pub user_queue_msg : List QueueJob

-- ORDER_TYPES.has
abbrev pub is_order_type : OutboxType → Bool
is_order_type order_process = true
is_order_type order_cancel = true
is_order_type order_refund = true
is_order_type _ = false

-- PAYMENT_TYPES.has
abbrev pub is_payment_type : OutboxType → Bool
is_payment_type payment_create_customer = true
is_payment_type payment_update_customer = true
is_payment_type payment_delete_customer = true
is_payment_type _ = false

-- EFFECTS_TYPES.has
abbrev pub is_effects_type : OutboxType → Bool
is_effects_type effects_notify_user = true
is_effects_type _ = false

-- USER_TYPES.has
abbrev pub is_user_type : OutboxType → Bool
is_user_type user_update = true
is_user_type _ = false

abbrev pub to_queue_job : Outbox → QueueJob
to_queue_job m = record { name = m.type; payload = m.payload; job_id = m.id }

unfoldable pub partition : List Outbox → DispatchPlan
partition messages = record {
  order_queue_msg = map to_queue_job (keep (λ m. is_order_type m.type) messages);
  payment_queue_msg = map to_queue_job (keep (λ m. is_payment_type m.type) messages);
  effect_queue_msg = map to_queue_job (keep (λ m. is_effects_type m.type) messages);
  user_queue_msg = map to_queue_job (keep (λ m. is_user_type m.type) messages);
}
