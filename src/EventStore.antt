-- ===== src/EventStore.antt =====
-- internal/domain/event.go and delivery_aggregate.go, and internal/eventsource: events are made with
-- numbers, checked, appended to daily files and read back.
mod Events
mod Counter
mod Files
mod Emitting
mod Cutover
pub mod Numbers
pub mod Migrating
pub mod Lines
pub mod Appending
mod Grouping
pub mod Ordering
pub mod Reading
pub mod Loading
unfoldable pub use Events.*
unfoldable pub use Counter.*
unfoldable pub use Files.*
unfoldable pub use Emitting.*
unfoldable pub use Cutover.*
