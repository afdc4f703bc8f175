-- ===== src/Poll/Lock.antt =====
-- The lock of `Poll::poll1`, src/poll.rs.
mod Defs
mod Count
mod Change
mod Invariant
mod Safety
mod Tests
