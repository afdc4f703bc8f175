-- ===== src/Timer.antt =====
-- `Timer` of src/timer.rs: its data, its operations, and the loop of `poll`; with the proofs of when a
-- timeout fires.
mod Defs
mod Ops
mod Poll
pub mod Slots
pub mod Register
mod Wakeup
mod Late
mod Laws
mod Tests
unfoldable pub use Defs.*
unfoldable pub use Ops.*
unfoldable pub use Poll.*
