-- ===== src/Ready.antt =====
-- `Ready` and `UnixReady`, src/event_imp.rs and src/sys/unix/ready.rs: the definitions, passed on, and
-- their laws.
mod Defs
mod Laws
mod Tests
unfoldable pub use Defs.*
pub use Laws.*
