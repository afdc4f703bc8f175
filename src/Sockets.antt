-- ===== src/Sockets.antt =====
-- The sockets of src/net/tcp.rs and src/sys/unix/tcp.rs as event sources: the definitions, passed on.
mod Defs
mod Laws
mod Tests
unfoldable pub use Defs.*
