-- ===== src/Timer/Slots.antt =====
-- The slots of the wheel of src/timer.rs as doubly linked lists over the slab.
mod Links
mod Erase
mod Unlink
pub mod Wheel
mod Removal
pub mod Cancel
mod Joined
mod Insert
mod Ahead
mod Turns
pub mod Returns
mod Fires
mod Owed
mod Keeps
mod Promise
pub mod Reached
mod Tests
