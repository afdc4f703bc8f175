-- ===== src/ReadinessState.antt =====
-- `ReadinessState` of src/poll.rs: the definitions, passed on, and their laws.
mod Defs
mod Laws
mod Updates
mod Tests
unfoldable pub use Defs.*
pub use Laws.*
pub use Updates.*
