-- ===== src/Router.antt =====
-- internal/domain/router.go and the data types of internal/domain/config.go that it reads: the
-- routes derived from what endpoints produce and consume, and the kinds left without a partner.
mod Defs
pub mod Index
pub mod Routes
pub mod Orphans
pub mod Unproduced
unfoldable pub use Defs.*
