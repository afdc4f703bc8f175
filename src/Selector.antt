-- ===== src/Selector.antt =====
-- The epoll selector of src/sys/unix/epoll.rs: the definitions, passed on, and their laws.
mod Defs
mod Laws
mod Tests
unfoldable pub use Defs.*
pub use Laws.*
