-- ===== src/Payments.antt =====
-- src/modules/payments: the gateway adapter and the service over it.
mod Stripe
mod Service
pub mod Rows
pub mod Gateway
pub mod Listing
pub mod Jobs
pub mod Customers
pub mod Refunds
unfoldable pub use Stripe.*
unfoldable pub use Service.*
