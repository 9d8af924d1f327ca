-- ===== src/Enums.antt =====
-- The enumerations of src/modules and src/shared/enums that the models share.
use dispatch_api.Prelude.{ℕ}

-- src/modules/orders/enums/order-status.enum.ts
pub data OrderStatus : Type 0 where
  pending paid processed shipped delivered canceled refunded : OrderStatus

-- src/shared/enums/user-role.enum.ts
pub data UserRole : Type 0 where
  superadmin admin shipper delivery financial user : UserRole

-- src/shared/enums/job-status.enum.ts
pub data JobStatus : Type 0 where
  in_progress completed failed : JobStatus

-- src/modules/notifications/enums/notification-type.enum.ts
pub data NotificationType : Type 0 where
  push email sms : NotificationType

-- src/modules/notifications/enums/notification-event.enum.ts
pub data NotificationEvent : Type 0 where
  auth_login order_created order_failed_upon_creating order_status_changed : NotificationEvent
  order_canceled order_refunded order_paid order_failed order_processed : NotificationEvent
  order_shipped order_delivered : NotificationEvent

-- src/shared/modules/outbox/enums/outbox-type.enum.ts
pub data OutboxType : Type 0 where
  order_process order_ship order_deliver order_cancel order_refund : OutboxType
  payment_create_customer payment_update_customer payment_delete_customer : OutboxType
  user_update effects_notify_user : OutboxType

pub OrderStatus-discrete : Discrete OrderStatus
OrderStatus-discrete = hlevel

-- A number for each status, by which `===` on the enum is decided.
abbrev pub status_code : OrderStatus → ℕ
status_code pending = 0
status_code paid = 1
status_code processed = 2
status_code shipped = 3
status_code delivered = 4
status_code canceled = 5
status_code refunded = 6

abbrev pub type_code : OutboxType → ℕ
type_code order_process = 0
type_code order_ship = 1
type_code order_deliver = 2
type_code order_cancel = 3
type_code order_refund = 4
type_code payment_create_customer = 5
type_code payment_update_customer = 6
type_code payment_delete_customer = 7
type_code user_update = 8
type_code effects_notify_user = 9
