-- ===== src/Bloom.antt =====
-- internal/domain/bloom_filter.go: the filter of the paths that have been delivered.
mod Bits
mod Defs
mod Growing
pub mod Members
pub mod Binary
unfoldable pub use Defs.*
