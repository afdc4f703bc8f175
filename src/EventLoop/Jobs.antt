-- ===== src/EventLoop/Jobs.antt =====
-- `enqueue_job` and the turns of the loop of src/net/event_loop.rs over its poll.
use sickle.Base.{
  ℕ, false, List, [], ◌∷◌, Option, none, some, Outcome, ok, panic, ◌>>=◌, IoResult, success,
  failure,
}
use sickle.Event.{TokenType, TokenEntry, Job, JobEntry}
use sickle.Ready.{readable}
use sickle.PollOpt.{edge}
use sickle.Queue.{Ptr, Queue, release_node}
use sickle.Registration
use sickle.Selector.{with_capacity}
use sickle.Poll.{Poll, Waited, poll2}
use sickle.EventLoop.Defs.{EventLoop, run_once}

abbrev pub job_entry : TokenEntry
job_entry = record { ttype = TokenType.other_event; token = record { id = 0 } }

-- `enqueue_job`, for the poll with the queue `q` and the identity `poll`. `p` is the address that the
-- allocator returns for the node, and `job` the closure round the caller's one, which keeps the two
-- handles of the node alive. Nobody else knows the node before it is registered.
unfoldable pub enqueue_job : Queue → Ptr → (poll : ℕ) → Job → Outcome Queue
unfolding Registration.new2 Registration.set_readiness Registration.register
enqueue_job q p poll job = do
  q1 ← Registration.set_readiness (Registration.new2 q p) p readable []
  r ← Registration.register q1 p poll job_entry readable edge job []
  elim r [ success q2 ↦ ok q2 | failure e ↦ panic ]

-- Several calls, where `closure` gives the job for the node at an address.
unfoldable pub enqueue_jobs : Queue → (poll : ℕ) → (closure : Ptr → Job) → List Ptr → Outcome Queue
unfolding enqueue_job
enqueue_jobs q poll closure [] = ok q
enqueue_jobs q poll closure (p ∷ ps) = do
  q1 ← enqueue_job q p poll (closure p)
  enqueue_jobs q1 poll closure ps

-- `events.clear()` at the end of `io_process` drops the closures. `owned` gives the node whose two handles
-- a closure is the last to own, as that of a job is: they are dropped, first the registration.
unfoldable pub clear_events : (owned : Job → Option Ptr) → List JobEntry → Queue → Outcome Queue
unfolding Registration.drop release_node
clear_events owned [] q = ok q
clear_events owned (e ∷ es) q = elim (owned e.job) [
  | none ↦ clear_events owned es q
  | some p ↦ (do q1 ← Registration.drop q p; q2 ← release_node q1 p; clear_events owned es q2)
]

-- `run_once` with the poll that it makes, where no other thread polls. Where the poll fails, the events
-- are dropped just so at the end.
unfoldable pub turn :
    (fuel : ℕ)
    → Option ℕ
    → List Waited
    → (arrived : List Ptr) → (reads : List (IoResult ℕ)) → (owned : Job → Option Ptr) → Poll
    → EventLoop
    → Outcome (IoResult (Unit {0}) × Poll × EventLoop)
unfolding poll2 run_once clear_events
turn fuel timeout waits arrived reads owned p l = do
  (r, p1, events) ← poll2 fuel false timeout waits arrived reads p (with_capacity 4_096)
  (done, l1) ← run_once fuel (record { result = r; entries = events.entries }) l
  q ← clear_events owned events.entries p1.readiness_queue
  ok (done, record p1 { readiness_queue = q }, l1)
