-- ===== src/World/State.antt =====
-- The state that operations run in. What the code takes from outside src is the record `Env`.
use dispatch_api.Prelude.Int.{ℤ}
use dispatch_api.Prelude.{ℕ, Bool, Option, none, some, List, String}
use dispatch_api.Enums.{OrderStatus}
use dispatch_api.Entities.{Db, QueueJob, NotificationData}
use dispatch_api.Dtos.{
  CursorParams, ItemQuery, PaymentIntentParams, RefundParams, CustomerParams, GatewayCall,
  PaymentIntent, StripeRefund, JwtPayload, StripeCustomer, CustomerList, StripeEvent, CacheValue,
}
use dispatch_api.World.Keys.{LockKey, CacheKey}

-- src/shared/constants/queues.token.ts
pub data QueueName : Type 0 where
  orders payments effects users : QueueName

-- The reading calls of Stripe, and the check of a webhook, given its body and its signature; `none` is a
-- call that throws.
pub record StripeReads : Type 0 where
  pub retrieve_payment_intent : ℕ → Option PaymentIntent
  pub retrieve_refund : ℕ → Option StripeRefund
  pub retrieve_customer : ℕ → Option StripeCustomer
  pub list_customers : ℤ → Option ℕ → Option CustomerList
  pub construct_event : String → String → Option StripeEvent

-- `encode_cursor` is the base64 of JSON.stringify of `{ startingAfter }`, `decode_cursor` JSON.parse
-- of what a base64 text holds, which may throw. `translate` is I18nService.translate of a key, a
-- language and the arguments. The answers of the payment gateway may depend on all requests sent
-- before; `none` is a call that throws. `intl_format` is Intl.NumberFormat, `ilike` is the test `ILIKE
-- %pattern%` of a text and a pattern, `stringify` is JSON.stringify of a query, and `cache_ttl` is the
-- CACHE_TTL of the configuration. `text_code` numbers the texts that stand in keys. `hash`, with a
-- salt, and `compare`, of a hash and a text, are argon2; the `sign` functions are JwtService.sign at a
-- time. `accepts` says if `addBulk` of a queue returns.
pub record Env : Type 0 where
  pub create_payment_intent : List GatewayCall → PaymentIntentParams → Option PaymentIntent
  pub create_stripe_refund : List GatewayCall → RefundParams → Option StripeRefund
  pub create_stripe_customer : List GatewayCall → CustomerParams → Option ℕ
  pub update_stripe_customer : List GatewayCall → ℕ → CustomerParams → Option ℕ
  pub del_stripe_customer : List GatewayCall → ℕ → Option ℕ
  pub stripe_reads : StripeReads
  pub intl_format : ℕ → String → String → String
  pub translate : String → String → NotificationData → String
  pub ilike : String → String → Bool
  pub stringify : ItemQuery → ℕ
  pub cache_ttl : Option ℕ
  pub encode_cursor : ℕ → String
  pub decode_cursor : String → Option CursorParams
  pub text_code : String → ℕ
  pub hash : ℕ → String → String
  pub compare : String → String → Bool
  pub sign_access : ℕ → JwtPayload → String
  pub sign_refresh : ℕ → JwtPayload → String
  pub accepts : QueueName → List QueueJob → Bool

pub record CacheEntry : Type 0 where
  pub key : CacheKey
  pub value : CacheValue
  pub expires_at : ℕ

-- `tx` holds the writes of the transaction of the current async context, not yet committed, as a
-- function on the database; it is `none` outside of any. `held` are the locks held in Redis,
-- `gateway_log` the requests sent to the gateway, latest first, `ticks` the outbox cycles that
-- `setImmediate` has scheduled, and `correlation` the correlation id of the async context.
pub record World : Type 0 where
  pub env : Env
  pub committed : Db
  pub tx : Option (Db → Db)
  pub held : List LockKey
  pub cache : List CacheEntry
  pub gateway_log : List GatewayCall
  pub order_queue : List QueueJob
  pub payment_queue : List QueueJob
  pub effect_queue : List QueueJob
  pub user_queue : List QueueJob
  pub is_processing : Bool
  pub is_shutting_down : Bool
  pub ticks : ℕ
  pub next_id : ℕ
  pub now : ℕ
  pub correlation : Option ℕ

-- The exceptions that the modelled code throws.
pub data Error : Type 0 where
  order_not_found order_access_denied item_not_found : Error
  insufficient_stock : String → Error
  bad_preconditions : OrderStatus → OrderStatus → Error
  payment_not_found customer_not_found gateway_failed lock_unavailable : Error
  notification_not_found notification_access_denied foreign_key_violation : Error
  unique_violation not_null_violation : Error
  email_already_exists user_not_found auth_is_required access_denied role_change_denied : Error
  invalid_password no_refresh_token invalid_refresh_token token_revoked : Error
  create_customer_failed update_customer_failed invalid_signature signature_required : Error
  invalid_cursor syntax_error negative_limit queue_unavailable : Error
  unauthorized forbidden idempotency_key_required : Error
  type_error : Error

-- A read sees what is committed and the writes of its own transaction.
abbrev pub view : World → Db
view w = elim w.tx [ none ↦ w.committed | some writes ↦ writes w.committed ]
