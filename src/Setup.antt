-- ===== src/Setup.antt =====
-- internal/session/scanner.go, setup.go and daemon_setup.go: what the repositories declare is scanned,
-- kept in the configuration, compared with what it was, and resolved for the daemon.
mod Scanner
mod Resolve
mod Diff
mod Sync
pub mod Watched
pub mod Sorting
mod Changes
pub mod Syncing
pub mod Declared
unfoldable pub use Scanner.*
unfoldable pub use Resolve.*
unfoldable pub use Diff.*
unfoldable pub use Sync.*
