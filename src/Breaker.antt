-- ===== src/Breaker.antt =====
-- internal/platform/circuit_breaker.go and internal/domain/delivery_error.go: the circuit breaker
-- that pauses retries after transient delivery errors.
mod Defs
pub mod Invariant
pub mod Waiting
unfoldable pub use Defs.*
