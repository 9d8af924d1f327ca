-- ===== src/World.antt =====
-- The process state that an operation runs in, and operations as functions on it: the database
-- with its open transaction, the locks held in Redis, the cache, the gateway, the job queues.
mod Keys
mod State
mod Monad
pub use Keys.*
pub use State.*
pub use Monad.*
