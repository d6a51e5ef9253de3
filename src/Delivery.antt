-- ===== src/Delivery.antt =====
-- internal/domain/delivery.go, dmail_filter.go, internal/session/deliver.go and
-- delivery_dedup_store.go: a D-Mail is read, routed, staged, flushed and recorded, then removed.
mod Dmail
mod Defs
pub mod Keeping
pub mod Recording
pub mod Removal
pub mod Again
pub mod Landing
pub mod Others
unfoldable pub use Dmail.*
unfoldable pub use Defs.*
