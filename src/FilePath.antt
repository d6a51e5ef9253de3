-- ===== src/FilePath.antt =====
-- Go's path/filepath, and the laws of it that the delivery depends on.
mod Paths
mod Laws
unfoldable pub use Paths.*
pub use Laws.*
