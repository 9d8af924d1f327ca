-- ===== src/Dtos.antt =====
-- What the services take and return (src/modules/*/dto), and the requests to the payment gateway
-- (src/modules/payments/dto/*-pgw-*.ts, src/modules/payments/gateways/stripe/types).
use dispatch_api.Prelude.{ℕ, Option, List, String, Bool}
use dispatch_api.Prelude.Int.{ℤ}
use dispatch_api.Enums.{OrderStatus, UserRole, JobStatus, NotificationEvent}
use dispatch_api.Entities.{OrderItem, User, BaseAddress}

-- src/shared/types/cursor-params.type.ts
pub record CursorParams : Type 0 where
  pub starting_after : Option ℕ
  pub limit : Option ℤ

-- src/shared/dto/pag-cursor-result.dto.ts; a cursor encodes the creation time of the last row
pub record PagCursorResult (A : Type 0) : Type 0 where
  pub items : List A
  pub next_cursor : Option ℕ
  pub has_more : Bool

-- src/modules/items/dto/item-cursor-query.dto.ts
pub record ItemQuery : Type 0 where
  pub name : Option String
  pub description : Option String
  pub cursor : Option CursorParams

-- src/modules/items/dto/create-item.dto.ts
pub record CreateItem : Type 0 where
  pub name : String
  pub description : String
  pub stock : ℤ
  pub price : ℕ
  pub price_payment_id : Option String

-- src/modules/items/dto/update-item.dto.ts
pub record UpdateItem : Type 0 where
  pub name : Option String
  pub description : Option String
  pub stock : Option ℤ
  pub price : Option ℕ
  pub price_payment_id : Option String

-- src/modules/items/dto/item-response.dto.ts; the public response has no `price_payment_id`
pub record ItemResponse : Type 0 where
  pub id : ℕ
  pub name : String
  pub description : String
  pub stock : ℤ
  pub price : ℕ
  pub price_payment_id : Option String
  pub created_at : ℕ

-- src/modules/orders/dto/create-order-item.dto.ts
pub record CreateOrderItem : Type 0 where
  pub item_id : ℕ
  pub quantity : ℕ

-- src/modules/orders/dto/ship-order.dto.ts
pub record ShipOrder : Type 0 where
  pub tracking_number : Option String
  pub carrier : Option String

-- src/modules/payments/dto/payment-response.dto.ts
pub record PaymentResponse : Type 0 where
  pub id : ℕ
  pub order_id : ℕ
  pub user_id : ℕ
  pub stripe_payment_intent_id : ℕ
  pub stripe_client_secret : Option ℕ
  pub status : String

-- src/modules/orders/dto/order-response.dto.ts; the public response has no user
pub record OrderResponse : Type 0 where
  pub id : ℕ
  pub user : Option User
  pub status : OrderStatus
  pub total : ℕ
  pub created_at : ℕ
  pub items : List OrderItem
  pub payment : Option PaymentResponse
  pub tracking_number : Option String
  pub carrier : Option String
  pub shipped_at : Option ℕ
  pub delivered_at : Option ℕ

-- The idempotency keys that the services give to the gateway.
pub data GatewayKey : Type 0 where
  payment_key : ℕ → ℕ → GatewayKey
  refund_order_key : ℕ → GatewayKey
  create_customer_key : ℕ → GatewayKey

-- src/modules/payments/gateways/stripe/types/stripe.type.ts
pub record PaymentIntentParams : Type 0 where
  pub amount : ℕ
  pub currency : String
  pub customer : Option ℕ
  pub order_id : Option ℕ

pub record RefundParams : Type 0 where
  pub payment_intent : ℕ
  pub amount : ℕ

pub record CustomerParams : Type 0 where
  pub email : String
  pub name : String

-- A request that has been sent to the gateway.
pub data GatewayCall : Type 0 where
  payment_intents_create : PaymentIntentParams → GatewayKey → GatewayCall
  refunds_create : RefundParams → GatewayKey → GatewayCall
  customers_create : CustomerParams → GatewayKey → GatewayCall
  customers_update : ℕ → CustomerParams → GatewayCall
  customers_del : ℕ → GatewayCall

pub record PaymentIntent : Type 0 where
  pub id : ℕ
  pub status : String
  pub client_secret : Option ℕ

pub record StripeRefund : Type 0 where
  pub id : ℕ
  pub payment_intent : ℕ
  pub amount : ℕ

-- A customer as Stripe gives it, and what the adapter makes of it
-- (src/modules/payments/dto/pgw-customer-response.dto.ts).
pub record StripeCustomer : Type 0 where
  pub id : ℕ
  pub deleted : Bool
  pub name : Option String
  pub email : Option String
  pub user_id : Option ℕ
  pub address : Option BaseAddress

pub record PgwCustomer : Type 0 where
  pub id : ℕ
  pub name : Option String
  pub email : Option String
  pub user_id : Option ℕ
  pub address : Option BaseAddress

-- A page of customers as Stripe gives it.
pub record CustomerList : Type 0 where
  pub customers : List StripeCustomer
  pub has_more : Bool

-- The types of the events of a webhook that the code tells apart.
pub data StripeEvent : Type 0 where
  payment_intent_succeeded payment_intent_failed other_event : StripeEvent

-- src/modules/auth/interfaces/request-user.interface.ts, `jwt` included
pub record RequestUser : Type 0 where
  pub id : ℕ
  pub email : String
  pub role : UserRole
  pub language : String
  pub jti : ℕ
  pub refresh_token : Option String

-- src/modules/auth/interfaces/jwt-payload.interface.ts, as it is signed
pub record JwtPayload : Type 0 where
  pub sub : ℕ
  pub email : String
  pub role : UserRole
  pub language : String
  pub jti : ℕ

-- src/modules/auth/dto/login-response.dto.ts
pub record LoginResponse : Type 0 where
  pub access_token : String
  pub refresh_token : String
  pub user_id : ℕ
  pub language : String

-- src/modules/users/dto/create-user.dto.ts; the public one has no role
pub record CreateUser : Type 0 where
  pub name : String
  pub email : String
  pub password : String
  pub language : Option String
  pub role : Option UserRole
  pub address : Option BaseAddress

-- src/modules/users/dto/update-user.dto.ts; the public one has no role
pub record UpdateUser : Type 0 where
  pub name : Option String
  pub email : Option String
  pub password : Option String
  pub current_password : Option String
  pub language : Option String
  pub role : Option UserRole
  pub address : Option BaseAddress

-- src/modules/users/dto/user-query.dto.ts; the public one has no email
pub record UserQuery : Type 0 where
  pub name : Option String
  pub email : Option String

-- src/modules/users/dto/user-response.dto.ts; what a smaller response leaves out is `none`
pub record UserResponse : Type 0 where
  pub id : ℕ
  pub name : String
  pub email : Option String
  pub role : Option UserRole
  pub created_at : ℕ
  pub language : Option String
  pub address : Option BaseAddress

-- The keys of the texts of notifications
-- (src/shared/constants/i18n/i18n-notifications.constant.ts), by the event that they are about.
pub data TextKey : Type 0 where
  title_of : NotificationEvent → TextKey
  message_of : NotificationEvent → TextKey

-- What is kept in Redis under a cache key; `revoked` is the entry of a token that is revoked.
pub data CacheValue : Type 0 where
  order_value : OrderResponse → CacheValue
  item_value : ItemResponse → CacheValue
  item_page : PagCursorResult ItemResponse → CacheValue
  user_value : UserResponse → CacheValue
  job_value : JobStatus → CacheValue
  revoked : CacheValue
