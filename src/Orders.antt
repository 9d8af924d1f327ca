-- ===== src/Orders.antt =====
-- src/modules/orders
pub mod Policy
pub mod Graph
pub mod Store
pub mod Currency
pub mod Service
pub mod Create
pub mod Jobs
pub mod Requests
pub mod Atomicity
pub mod Steps
pub mod Conformance
pub mod Shipping
pub mod Refusal
pub mod Stock
pub mod Webhook
pub mod Listing
