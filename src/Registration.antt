-- ===== src/Registration.antt =====
-- `Registration` and `SetReadiness` of src/poll.rs: the user's side of a node.
mod Defs
mod Laws
mod Tests
unfoldable pub use Defs.*
pub use Laws.*
