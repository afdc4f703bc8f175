-- ===== src/Connection.antt =====
-- `TcpConnection` of src/net/connection.rs: its operations, with proofs on closing, on
-- writing and that its handlers return.
mod Defs
mod Close
mod Returns
mod Write
mod Tests
unfoldable pub use Defs.*
pub use Close.*
pub use Write.*
