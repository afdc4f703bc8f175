-- ===== src/Timer/Wakeup.antt =====
-- The wakeup thread of src/timer.rs.
mod Defs
mod Invariant
mod Safety
mod Tests
