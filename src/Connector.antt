-- ===== src/Connector.antt =====
-- `Connector` of src/net/connector.rs, over the timer of its event loop.
mod Defs
mod Laws
mod Tests
unfoldable pub use Defs.*
