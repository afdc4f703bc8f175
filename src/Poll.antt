-- ===== src/Poll.antt =====
-- `Poll` of src/poll.rs: its definitions, passed on, the lock of `poll1`, and what `poll2` does.
pub mod Lock
mod Defs
pub mod Wait
mod Delivery
mod Tests
unfoldable pub use Defs.*
pub use Delivery.{first, selected, selected-capacity, poll2-events, poll2-pass, poll2-pass}
