-- ===== src/Store.antt =====
-- internal/session/delivery_store.go and atomicWrite of internal/session/deliver.go: the table of
-- staged deliveries and its flush to the inboxes.
mod Defs
mod Flush
pub mod Keys
pub mod Staging
pub mod Flushing
pub mod Advance
pub mod Draining
pub mod Cleaning
pub mod Unique
unfoldable pub use Defs.*
unfoldable pub use Flush.*
