-- ===== src/Daemon.antt =====
-- internal/session/daemon_deliver.go, classify_delivery_error.go and daemon_runner.go: what the daemon
-- does with a new file and with the queue of failures, and its event loop.
mod Defs
pub mod Cycle
pub mod Handling
pub mod Loop
pub mod Serving
pub mod Retrying
unfoldable pub use Defs.*
