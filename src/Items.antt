-- ===== src/Items.antt =====
-- src/modules/items: the catalogue and its stock.
mod Service
mod Stock
pub mod Listing
pub mod Listed
pub mod Levels
pub mod Cached
unfoldable pub use Service.*
unfoldable pub use Stock.*
