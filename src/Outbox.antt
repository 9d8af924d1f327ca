-- ===== src/Outbox.antt =====
-- src/shared/modules/outbox
pub mod Add
pub mod Dispatcher
pub mod Cron
pub mod Cycle
pub mod Parts
pub mod Waiting
pub mod Counted
pub mod Drained
pub mod Shutdown
unfoldable pub use Add.{add, schedule, new_payload, correlation_id}
pub use Add.{add-Isolated, schedule-Isolated}
