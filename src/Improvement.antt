-- ===== src/Improvement.antt =====
-- internal/domain/improvement.go and routing_policy.go, and internal/harness/policy/delivery.go: the
-- metadata of corrections, its histories, and the inboxes that a delivery is narrowed to.
mod Defs
mod History
mod Targets
mod Applying
pub mod Policy
pub mod Histories
pub mod Narrowing
mod Normal
pub mod Reading
pub mod Snapshots
pub mod Vocabulary
unfoldable pub use Defs.*
unfoldable pub use History.*
unfoldable pub use Applying.*
unfoldable pub use Targets.*
