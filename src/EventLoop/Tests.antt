-- ===== src/EventLoop/Tests.antt =====
-- An event loop that runs two jobs, and one whose poll fails.
use sickle.Base.{
  ℕ, ◌+◌, ◌<◌, get_elem?, ◌≡◌, ◌==◌, if◌then◌else◌, refl, Bool, true, false, none, some, List, [],
  ◌∷◌, length, All, Option, Outcome, ◌>>=◌, ok, success, failure, ErrorKind,
}
use sickle.Event.{TokenType, Job, JobEntry}
use sickle.EventLoop.Defs.{Call, default, configured_timer, EventLoop, io_process}
use sickle.Selector
use sickle.ReadinessState
use sickle.Queue
use sickle.Queue.{Ptr, Node, Queue}
use sickle.Poll.{Poll, Waited}
use sickle.EventLoop.Builder.{Answers, World, new_pool, get_current_loop}
use sickle.EventLoop.Pool.{new_pool_lem}
use sickle.EventLoop.Jobs.{enqueue_jobs, turn}
use sickle.EventLoop.Laws.{calls_of, adjusted, IsIo, io_process-calls_of}

abbrev idle : EventLoop
idle = record {
  run = true;
  timer = configured_timer default;
  calls = [];
  polls = 0;
  clock = λ _. record { as_secs = 0; subsec_nanos = 0 };
  stops = λ _. false;
  adjusts = λ job t. if job == 5 then record t { tick_ms = 50 } else t;
}

abbrev entry : ℕ → ℕ → JobEntry
entry job ready = record {
  token_entry = record { ttype = TokenType.socket_event; token = record { id = job } };
  job = job;
  ready = record { bits = ready };
}

abbrev two_entries : List JobEntry
two_entries = entry 5 1 ∷ entry 6 2 ∷ []

two_entries-IsIo : All IsIo two_entries
two_entries-IsIo = (refl, (refl, tt))

io_process-calls_of_example :
    (l' : EventLoop) × (io_process 0 two_entries (length two_entries) idle ≡ ok l')
    × (l'.calls ≡ calls_of two_entries [])
    × (l'.timer ≡ record idle.timer { tick_ms = 50 })
unfolding adjusted
io_process-calls_of_example = io_process-calls_of 0 two_entries idle two_entries-IsIo

abbrev fresh_poll : Poll
fresh_poll = record { selector = Selector.new 0; readiness_queue = Queue.new; selects = [] }

abbrev quiet : Waited
quiet = record { waited = success []; elapsed = 0 }

-- The job of the node at 10 is 5, and that of the node at 11 is 6.
abbrev two_jobs : Ptr → Job
two_jobs p = if p == 10 then 5 else 6

abbrev owner : Job → Option Ptr
owner job = if job == 5 then some 10 else if job == 6 then some 11 else none

abbrev no_loops : World
no_loops = record { loops = []; current_loop = λ k. none }

abbrev made : ℕ → Bool × Answers
made k = (true, record { polls = true; node = 16 + k; queue = k; spawns = true })

abbrev two_threads : List (Bool × Answers)
two_threads = made 1 ∷ made 2 ∷ []

new_pool_lem_example :
    (ids : List ℕ) × (w' : World) × (new_pool idle.clock idle.stops idle.adjusts 4 two_threads
        no_loops
      ≡ ok (ids, w'))
    × (length ids ≡ 2)
    × (length w'.loops ≡ 0 + 2)
    × ((i : ℕ)
        → i < 2
        → (get_elem? ids i ≡ some (0 + i)) × (get_current_loop (4 + i) w' ≡ ok (0 + i)))
    × ((k : ℕ) → k < 4 → get_current_loop k w' ≡ get_current_loop k no_loops)
new_pool_lem_example =
    new_pool_lem idle.clock idle.stops idle.adjusts two_threads 4 no_loops
      ((refl, refl, refl), ((refl, refl, refl), tt))

abbrev dropped : Option Node → Option Bool
unfolding ReadinessState.is_dropped
dropped none = none
dropped (some n) = some (ReadinessState.is_dropped n.state)

-- Two jobs run in one turn, whose end hands their nodes to the queue again, flagged as dropped; the
-- next turn frees them.
abbrev two_turns : Outcome (List Call × Option Bool × Option Bool)
unfolding enqueue_jobs turn
two_turns = do
  q ← enqueue_jobs Queue.new 1 two_jobs (10 ∷ 11 ∷ [])
  let reads = failure ErrorKind.would_block ∷ []
  (_, p1, l1) ←
      turn 9 none (quiet ∷ []) [] reads owner (record fresh_poll { readiness_queue = q }) idle
  (_, p2, l2) ← turn 9 none (quiet ∷ []) [] reads owner p1 l1
  ok (l2.calls, dropped (p1.readiness_queue.nodes 10), dropped (p2.readiness_queue.nodes 10))

two_turns_run : two_turns ≡ ok (Call.job 6 0 ∷ Call.job 5 0 ∷ [], some true, none)
unfolding two_turns ReadinessState.set_readiness ReadinessState.set_poll_opt
    ReadinessState.set_token_write_pos ReadinessState.set_queued Queue.new
two_turns_run = refl
