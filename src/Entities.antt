-- ===== src/Entities.antt =====
-- The rows of the database (src/modules/*/entities, src/shared/modules/outbox/entities) and the
-- payloads of jobs (src/shared/payloads). Ids, times and gateway ids are numbers: the code only
-- compares them. `updatedAt` is not read by the code and is left out.
use dispatch_api.Prelude.{ℕ, Bool, true, false, Option, none, some, String, List, if◌then◌else◌}
use dispatch_api.Prelude.Int.{ℤ}
use dispatch_api.Enums.{
  OrderStatus, UserRole, NotificationType, NotificationEvent, OutboxType, order_process,
  order_cancel, order_refund, payment_create_customer, payment_update_customer,
  payment_delete_customer, user_update, effects_notify_user,
}

-- src/modules/orders/entities/order.entity.ts
pub record Order : Type 0 where
  pub id : ℕ
  pub created_at : ℕ
  pub deleted_at : Option ℕ
  pub user_id : ℕ
  pub status : OrderStatus
  pub total : ℕ
  pub payment_id : Option ℕ
  pub tracking_number : Option String
  pub carrier : Option String
  pub shipped_at : Option ℕ
  pub delivered_at : Option ℕ

-- src/modules/orders/entities/order-item.entity.ts
pub record OrderItem : Type 0 where
  pub id : ℕ
  pub order_id : ℕ
  pub item_id : ℕ
  pub quantity : ℕ

-- src/modules/items/entities/item.entity.ts; the stock column is a signed integer
pub record Item : Type 0 where
  pub id : ℕ
  pub created_at : ℕ
  pub deleted_at : Option ℕ
  pub name : String
  pub description : String
  pub stock : ℤ
  pub price : ℕ
  pub price_payment_id : Option String

-- src/modules/users/entities/user.entity.ts
pub record User : Type 0 where
  pub id : ℕ
  pub created_at : ℕ
  pub deleted_at : Option ℕ
  pub name : String
  pub email : String
  pub password : String
  pub role : UserRole
  pub refresh_token : Option String
  pub language : String
  pub customer_id : Option ℕ

-- src/modules/payments/entities/payment.entity.ts
pub record Payment : Type 0 where
  pub id : ℕ
  pub created_at : ℕ
  pub deleted_at : Option ℕ
  pub order_id : ℕ
  pub user_id : ℕ
  pub stripe_payment_intent_id : ℕ
  pub stripe_client_secret : Option ℕ
  pub status : String

-- src/modules/payments/entities/refund.entity.ts
pub record Refund : Type 0 where
  pub id : ℕ
  pub payment_id : ℕ
  pub gateway_refund_id : ℕ
  pub amount : ℕ

-- src/modules/payments/entities/customer.entity.ts
pub record Customer : Type 0 where
  pub id : ℕ
  pub deleted_at : Option ℕ
  pub gateway_customer_id : ℕ
  pub user_id : ℕ
  pub email : String
  pub name : String

-- The `data` of a notification: the code passes nothing, a formatted total or a status.
pub data NotificationData : Type 0 where
  no_data : NotificationData
  order_total : String → NotificationData
  new_status : OrderStatus → NotificationData

-- src/modules/notifications/entities/notification.entity.ts
pub record Notification : Type 0 where
  pub id : ℕ
  pub created_at : ℕ
  pub deleted_at : Option ℕ
  pub user_id : ℕ
  pub type : NotificationType
  pub event : NotificationEvent
  pub data_of : NotificationData
  pub read : Bool
  pub read_at : Option ℕ

-- src/shared/dto/base-address.dto.ts
pub record BaseAddress : Type 0 where
  pub city : Option String
  pub country : Option String
  pub line1 : Option String
  pub line2 : Option String
  pub postal_code : Option String
  pub state : Option String

-- src/modules/users/entities/address.entity.ts
pub record Address : Type 0 where
  pub id : ℕ
  pub deleted_at : Option ℕ
  pub user_id : ℕ
  pub line1 : String
  pub line2 : Option String
  pub city : String
  pub state : String
  pub country : String
  pub postal_code : String

-- src/shared/dto/snapshots/user-snapshot.dto.ts
pub record UserSnapshot : Type 0 where
  pub id : ℕ
  pub name : String
  pub email : String
  pub customer_id : Option ℕ
  pub address : Option BaseAddress

-- The payload classes of src/shared/payloads, one constructor each.
pub data JobBody : Type 0 where
  process_order : ℕ → JobBody
  cancel_order : ℕ → JobBody
  refund_order : ℕ → JobBody
  create_customer : UserSnapshot → JobBody
  update_customer : UserSnapshot → JobBody
  delete_customer : UserSnapshot → JobBody
  update_user : ℕ → Option ℕ → JobBody
  notify_user : ℕ → NotificationType → NotificationEvent → NotificationData → JobBody

-- The field `type` of each payload class.
abbrev pub body_type : JobBody → OutboxType
body_type (process_order _) = order_process
body_type (cancel_order _) = order_cancel
body_type (refund_order _) = order_refund
body_type (create_customer _) = payment_create_customer
body_type (update_customer _) = payment_update_customer
body_type (delete_customer _) = payment_delete_customer
body_type (update_user _ _) = user_update
body_type (notify_user _ _ _ _) = effects_notify_user

-- src/shared/payloads/base-job.payload.ts
pub record JobPayload : Type 0 where
  pub timestamp : ℕ
  pub correlation_id : ℕ
  pub body : JobBody

-- src/shared/modules/outbox/entities/outbox.entity.ts
pub record Outbox : Type 0 where
  pub id : ℕ
  pub created_at : ℕ
  pub correlation_id : ℕ
  pub type : OutboxType
  pub payload : JobPayload

-- src/shared/interfaces/queue-job.interface.ts
pub record QueueJob : Type 0 where
  pub name : OutboxType
  pub payload : JobPayload
  pub job_id : ℕ

-- All tables.
pub record Db : Type 0 where
  pub orders : List Order
  pub order_items : List OrderItem
  pub items : List Item
  pub users : List User
  pub addresses : List Address
  pub payments : List Payment
  pub refunds : List Refund
  pub customers : List Customer
  pub notifications : List Notification
  pub outbox : List Outbox

-- A row that is not soft-deleted.
abbrev pub is_live : Option ℕ → Bool
is_live none = true
is_live _ = false

-- The row found by its primary key, if it is not soft-deleted.
abbrev pub only_live : {A : Type 0} → (A → Option ℕ) → Option A → Option A
only_live deleted_at none = none
only_live deleted_at (some a) = if is_live (deleted_at a) then some a else none
