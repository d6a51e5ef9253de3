-- ===== src/Config.antt =====
-- internal/domain/config.go: the configured repositories and the routes derived for all of them.
mod Defs
pub mod Laws
unfoldable pub use Defs.*
