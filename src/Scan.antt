-- ===== src/Scan.antt =====
-- internal/session/scan_deliver.go, with runStartupScan of daemon_runner.go: the D-Mails that wait in
-- the outboxes when the daemon starts.
mod Defs
pub mod Losing
pub mod Skipping
unfoldable pub use Defs.*
