-- ===== src/EventLoop.antt =====
-- `EventLoop` of src/net/event_loop.rs: the definitions, passed on, and the order in which jobs run.
mod Defs
mod Laws
mod Builder
mod Pool
mod Jobs
mod Enqueue
mod Clear
pub mod Turn
mod Tests
unfoldable pub use Defs.*
pub use Laws.*
