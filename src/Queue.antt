-- ===== src/Queue.antt =====
-- The readiness queue, `ReadinessQueue` of src/poll.rs: the nodes and the operations on its two ends, and
-- the loops that drain it.
mod Defs
mod Drain
mod Links
mod Fifo
mod Dequeue
mod Clear
mod Sleep
mod Refines
mod Words
mod Frame
mod Deliver
mod Round
mod Nodes
mod Pass
mod Arrivals
mod Tests
unfoldable pub use Defs.*
unfoldable pub use Drain.*
unfoldable pub use Arrivals.*
pub use Links.{Apart, Distinct}
pub use Fifo.{IsReal, IsQueue}
pub use Dequeue.{new-IsQueue}
pub use Arrivals.{Distinct-middle, enqueue_node_with_wakeup-IsQueue}
pub use Frame.{Has, Frames, FramesBut, prepare_for_sleep-Frames, IsQueue-outside, IsQueue-stored}
pub use Sleep.{is_nil, prepare_for_sleep-nil, prepare_for_sleep-cons}
unfoldable pub use Deliver.{events_of, stays, delivered}
pub use Deliver.{IsNode, IsHanded, handed_out, release_node_lem, outside_frames}
unfoldable pub use Nodes.{events, staying}
pub use Nodes.{IsFull, Holds}
pub use Pass.{poll-events, poll-pass, Handed}
