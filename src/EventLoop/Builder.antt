-- ===== src/EventLoop/Builder.antt =====
-- `EventLoopBuilder`, the current loop of a thread, and `EventLoopPool` of src/net/event_loop.rs. The
-- `Arc` of a loop is its position in the list of all loops; a thread is a number. What a loop meets, its
-- clock and its closures, is given, as is what the system answers.
use sickle.Base.{
  ℕ, ◌+◌, false, Option, none, some, List, [], ◌∷◌, ◌++◌, length, get_elem?, update, Outcome, ok,
  panic, ◌>>=◌, unwrap, Bool, if◌then◌else◌, IoResult, success, failure, ErrorKind,
}
use sickle.Duration.{Duration}
use sickle.Event.{Job, TokenType, TokenEntry}
use sickle.Ready
use sickle.PollOpt
use sickle.Queue
use sickle.Queue.{Ptr, Queue}
use sickle.Timer.{Timer}
use sickle.Timer.Register.{register}
use sickle.EventLoop.Defs.{Config, default, configured_timer, EventLoop}

pub record EventLoopBuilder : Type 0 where
  pub config : Config
  pub event_loop : Option ℕ

-- What the system answers while a loop is made: whether `Poll::new` succeeds, the address of the node of
-- the timer, the identity of the queue, and whether the wakeup thread of the timer starts.
pub record Answers : Type 0 where
  pub polls : Bool
  pub node : Ptr
  pub queue : ℕ
  pub spawns : Bool

-- All loops with the queues of their polls, and `CURRENT_LOOP` of each thread.
pub record World : Type 0 where
  pub loops : List (Queue × EventLoop)
  pub current_loop : ℕ → Option ℕ

-- `EventLoopBuilder::new`
abbrev pub new : EventLoopBuilder
new = record { config = default; event_loop = none }

unfoldable pub notify_capacity : EventLoopBuilder → ℕ → EventLoopBuilder
notify_capacity b capacity = record b { config = record b.config { notify_capacity = capacity } }

unfoldable pub messages_per_tick : EventLoopBuilder → ℕ → EventLoopBuilder
messages_per_tick b messages = record b {
  config = record b.config { messages_per_tick = messages };
}

unfoldable pub timer_tick : EventLoopBuilder → Duration → EventLoopBuilder
timer_tick b val = record b { config = record b.config { timer_tick = val } }

unfoldable pub timer_wheel_size : EventLoopBuilder → ℕ → EventLoopBuilder
timer_wheel_size b size = record b { config = record b.config { timer_wheel_size = size } }

unfoldable pub timer_capacity : EventLoopBuilder → ℕ → EventLoopBuilder
timer_capacity b cap = record b { config = record b.config { timer_capacity = cap } }

abbrev pub timer_entry : TokenEntry
timer_entry = record { ttype = TokenType.timers_event; token = record { id = 0 } }

-- `unwrap` of a loop.
unfoldable pub unwrapped : IoResult (Queue × EventLoop) → Outcome (Queue × EventLoop)
unwrapped (success x) = ok x
unwrapped (failure e) = panic

module _ (clock : ℕ → Duration) (stops : Job → Bool) (adjusts : Job → Timer Job → Timer Job) where
  abbrev pub with_timer : Timer Job → EventLoop
  with_timer t = record {
    run = false;
    timer = t;
    calls = [];
    polls = 0;
    clock = clock;
    stops = stops;
    adjusts = adjusts;
  }

  -- What `poll.register` of the timer gives.
  unfoldable pub with_registered : IoResult (Queue × Timer Job) → IoResult (Queue × EventLoop)
  with_registered (success (q, t)) = success (q, with_timer t)
  with_registered (failure e) = failure e

  -- `EventLoop::configured`
  unfoldable pub configured : Config → Answers → Outcome (IoResult (Queue × EventLoop))
  unfolding configured_timer register with_registered
  configured config a =
      if a.polls
      then (do
        r ←
            register Queue.new (configured_timer config) a.node a.queue timer_entry Ready.readable
              PollOpt.edge a.spawns
        ok (with_registered r))
      else ok (failure ErrorKind.other)

  unfoldable pub build : EventLoopBuilder → Answers → Outcome (IoResult (Queue × EventLoop))
  unfolding configured
  build b a = configured b.config a

  -- The loop is the current one of the thread.
  unfoldable pub get_build :
      (thread : ℕ) → EventLoopBuilder → Answers → World → Outcome (ℕ × EventLoopBuilder × World)
  unfolding build unwrapped
  get_build thread b a w = do
    r ← build b a
    made ← unwrapped r
    let id = length w.loops
    ok (
      id,
      record b { event_loop = some id },
      record {
        loops = w.loops ++ (made ∷ []);
        current_loop = update w.current_loop thread (some id);
      },
    )

  -- The builder of each thread of a pool.
  unfoldable pub pool_builder : EventLoopBuilder
  unfolding notify_capacity messages_per_tick timer_tick timer_wheel_size timer_capacity
  pool_builder =
      timer_capacity
        (timer_wheel_size
          (timer_tick (messages_per_tick (notify_capacity new 1_048_576) 64)
            (record { as_secs = 0; subsec_nanos = 100_000_000 }))
          1_024)
        65_536

  -- The loop of `EventLoopPool::new`: its threads are `thread` and the numbers behind it. For each, it
  -- is given whether the system starts it, and what that answers then. A thread that panics drops the
  -- sender of its channel, so that the unwrap of `recv` panics, too. A pool is the list of its loops.
  unfoldable pub new_pool : (thread : ℕ) → List (Bool × Answers) → World → Outcome (List ℕ × World)
  unfolding get_build pool_builder
  new_pool thread [] w = ok ([], w)
  new_pool thread (a ∷ rest) w =
      if a.0
      then (do
        (id, _, w1) ← get_build thread pool_builder a.1 w
        (ids, w2) ← new_pool (thread + 1) rest w1
        ok (id ∷ ids, w2))
      else panic

unfoldable pub set_current_loop : (thread event_loop : ℕ) → World → World
set_current_loop thread event_loop w = record w {
  current_loop = update w.current_loop thread (some event_loop);
}

-- A thread that has no current loop panics.
unfoldable pub get_current_loop : (thread : ℕ) → World → Outcome ℕ
get_current_loop thread w = unwrap (w.current_loop thread)

unfoldable pub get_first_poller : List ℕ → Outcome ℕ
get_first_poller loops = unwrap (get_elem? loops 0)
