-- ===== src/ErrorQueue.antt =====
-- internal/session/error_queue_store.go: the queue of failed deliveries, with claims that expire.
mod Defs
pub mod Names
pub mod Known
pub mod Claims
pub mod Resolved
pub mod Returns
pub mod Limits
pub mod Adding
unfoldable pub use Defs.*
