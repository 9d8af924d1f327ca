-- ===== src/Tests/Access.antt =====
-- Runs of requests as they come in.
use dispatch_api.Prelude.{◌≡◌, none, some}
use dispatch_api.World.{err}
use dispatch_api.Api.Orders.{refund}
use dispatch_api.Api.Routes.{orders_admin, handler_of, respond}
use dispatch_api.Api.Roles.{refusal, respond_iff}
use dispatch_api.Tests.Accounts.{as_ann}
use dispatch_api.Tests.Data.{shop}

-- Ann, who is a customer, asks for a refund by the route of the staff.
respond_iff_example :
    respond (orders_admin (refund 11)) (some as_ann) shop
    ≡ elim (refusal (orders_admin (refund 11)) (some as_ann)) [
      | none ↦ handler_of (orders_admin (refund 11)) (some as_ann) shop
      | some e ↦ (err e, shop)
    ]
respond_iff_example = respond_iff (orders_admin (refund 11)) (some as_ann) shop
