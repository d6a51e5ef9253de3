-- ===== src/Provider.antt =====
-- internal/domain/provider_state.go: the snapshot that describes the state of the delivery
-- targets, and the retry budget.
mod Defs
mod Applying
pub mod Budget
unfoldable pub use Defs.*
unfoldable pub use Applying.*
