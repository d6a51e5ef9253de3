-- ===== src/Metrics.antt =====
-- internal/domain/metrics.go: the deliveries of a window of time, in buckets.
mod Defs
pub mod Totals
pub mod Series
unfoldable pub use Defs.*
