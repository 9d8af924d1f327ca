-- ===== src/Notifications/Templates.antt =====
-- The keys of the texts of notifications: src/modules/notifications/helpers/notification-event-mapper.util.ts with the keys of
-- src/shared/constants/i18n/i18n-notifications.constant.ts.
use text.Mathlib.Text.{◌==◌ as text_eq}
use dispatch_api.Prelude.{
  ◌≡◌, refl, sym, ap, ◌∙◌, Option, some, or_else, String, List, [], ◌∷◌, find,
}
use dispatch_api.Enums.{
  NotificationEvent, auth_login, order_created, order_failed_upon_creating, order_status_changed,
  order_canceled, order_refunded, order_paid, order_failed, order_processed, order_shipped,
  order_delivered,
}
use dispatch_api.Dtos.{TextKey, title_of, message_of}

-- NotificationEventToTemplateMapper.getTitleTemplate
abbrev pub get_title_template : NotificationEvent → String
get_title_template auth_login = "notifications.titles.authLogin"
get_title_template order_created = "notifications.titles.orderCreated"
get_title_template order_failed_upon_creating = "notifications.titles.orderFailedUponCreating"
get_title_template order_status_changed = "notifications.titles.orderStatusChanged"
get_title_template order_canceled = "notifications.titles.orderCanceled"
get_title_template order_refunded = "notifications.titles.orderRefunded"
get_title_template order_paid = "notifications.titles.orderPaid"
get_title_template order_failed = "notifications.titles.orderFailed"
get_title_template order_processed = "notifications.titles.orderProcessed"
get_title_template order_shipped = "notifications.titles.orderShipped"
get_title_template order_delivered = "notifications.titles.orderDelivered"

-- NotificationEventToTemplateMapper.getMessageTemplate
abbrev pub get_message_template : NotificationEvent → String
get_message_template auth_login = "notifications.messages.authLogin"
get_message_template order_created = "notifications.messages.orderCreated"
get_message_template order_failed_upon_creating = "notifications.messages.orderFailedUponCreating"
get_message_template order_status_changed = "notifications.messages.orderStatusChanged"
get_message_template order_canceled = "notifications.messages.orderCanceled"
get_message_template order_refunded = "notifications.messages.orderRefunded"
get_message_template order_paid = "notifications.messages.orderPaid"
get_message_template order_failed = "notifications.messages.orderFailed"
get_message_template order_processed = "notifications.messages.orderProcessed"
get_message_template order_shipped = "notifications.messages.orderShipped"
get_message_template order_delivered = "notifications.messages.orderDelivered"

abbrev pub key_text : TextKey → String
key_text (title_of e) = get_title_template e
key_text (message_of e) = get_message_template e

abbrev all_keys : List TextKey
all_keys =
    title_of auth_login
    ∷ message_of auth_login
    ∷ title_of order_created
    ∷ message_of order_created
    ∷ title_of order_failed_upon_creating
    ∷ message_of order_failed_upon_creating
    ∷ title_of order_status_changed
    ∷ message_of order_status_changed
    ∷ title_of order_canceled
    ∷ message_of order_canceled
    ∷ title_of order_refunded
    ∷ message_of order_refunded
    ∷ title_of order_paid
    ∷ message_of order_paid
    ∷ title_of order_failed
    ∷ message_of order_failed
    ∷ title_of order_processed
    ∷ message_of order_processed
    ∷ title_of order_shipped
    ∷ message_of order_shipped
    ∷ title_of order_delivered
    ∷ message_of order_delivered
    ∷ []

key_of : String → Option TextKey
key_of text = find (λ k. text_eq (key_text k) text) all_keys

key_of-key_text : (k : TextKey) → key_of (key_text k) ≡ some k
unfolding key_of
key_of-key_text (title_of auth_login) = refl
key_of-key_text (message_of auth_login) = refl
key_of-key_text (title_of order_created) = refl
key_of-key_text (message_of order_created) = refl
key_of-key_text (title_of order_failed_upon_creating) = refl
key_of-key_text (message_of order_failed_upon_creating) = refl
key_of-key_text (title_of order_status_changed) = refl
key_of-key_text (message_of order_status_changed) = refl
key_of-key_text (title_of order_canceled) = refl
key_of-key_text (message_of order_canceled) = refl
key_of-key_text (title_of order_refunded) = refl
key_of-key_text (message_of order_refunded) = refl
key_of-key_text (title_of order_paid) = refl
key_of-key_text (message_of order_paid) = refl
key_of-key_text (title_of order_failed) = refl
key_of-key_text (message_of order_failed) = refl
key_of-key_text (title_of order_processed) = refl
key_of-key_text (message_of order_processed) = refl
key_of-key_text (title_of order_shipped) = refl
key_of-key_text (message_of order_shipped) = refl
key_of-key_text (title_of order_delivered) = refl
key_of-key_text (message_of order_delivered) = refl

-- No two events, and no title and message, have one key.
pub key_text_injective : (k l : TextKey) → key_text k ≡ key_text l → k ≡ l
key_text_injective k l e =
    ap (λ o. or_else o k) (sym (key_of-key_text k) ∙ ap key_of e ∙ key_of-key_text l)
