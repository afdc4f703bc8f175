-- ===== src/EventLoop/Turn.antt =====
-- The jobs that are enqueued run at the next turn of the loop, src/net/event_loop.rs.
use sickle.Base.{ℕ, List, [], ◌∷◌, Option}
use sickle.Event.{JobEntry, Job}
use sickle.Ready
use sickle.Queue.{Ptr, Node, Queue}
use sickle.Poll.{Poll}
use sickle.EventLoop.Defs.{Call, EventLoop}
use sickle.EventLoop.Jobs.{job_entry}
use sickle.PollOpt
use sickle.ReadinessState
use sickle.EventLoop.Enqueue.{job_node}

module _ (poll : ℕ) (closure : Ptr → Job) (owned : Job → Option Ptr) where
  abbrev contents : Ptr → Node
  contents p = job_node poll (closure p)

  -- What the poll gives for a job.
  abbrev entry : Ptr → JobEntry
  entry p = record { token_entry = job_entry; job = closure p; ready = Ready.empty }

  -- The calls for the jobs, the latest first.
  pub called : List Ptr → List Call → List Call
  called [] before = before
  called (p ∷ ps) before = called ps (Call.job (closure p) 0 ∷ before)
