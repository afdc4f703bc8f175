-- ===== src/Timer/Wakeup/Defs.antt =====
-- `spawn_wakeup_thread`, `schedule_readiness` and the drop of `Inner` of src/timer.rs, interleaved: each
-- step is one atomic operation on the shared word, one look at the clock, or one call that parks,
-- unparks or sets the readiness, with what the thread does by itself after it. Any number of threads
-- may be in `schedule_readiness` at a time, as the event loop keeps its timer in an `UnsafeCell`.
-- Where `thread::park` may return for no reason, it may do so here. The clock shows ticks.
use sickle.Base.{ℕ, update, ◌≤◌, ◌≡◌, Bool, true, false, ◌==◌, leb, ltb, min, if◌then◌else◌}
use sickle.Timer.Defs.{Tick, tick_max}

-- `TERMINATE_THREAD`
abbrev pub terminate_thread : Tick
terminate_thread = 0

-- The wakeup thread: `look u` is at the head of its loop with `u` for `sleep_until_tick`, `parked u`
-- sleeps, `reload` is about to read the word, `exchange u` has seen that `u` is due, `signal u` has
-- exchanged `u` and is about to set the readiness, and `stopped` has returned.
pub data Pc : Type 0 where
  look : Tick → Pc
  parked : Tick → Pc
  reload : Pc
  exchange : Tick → Pc
  signal : Tick → Pc
  stopped : Pc

-- A thread in `schedule_readiness`: not in it, about to exchange `curr` by `tick`, or about to unpark; a
-- thread that drops the timer is about to unpark, too.
pub data Caller : Type 0 where
  away : Caller
  trying : (tick curr : Tick) → Caller
  unparking : (tick : Tick) → Caller

-- `token` is that of `unpark`. `wanted` is no part of the program: it is the least tick for which a
-- `schedule_readiness` has done its last operation on the word since the readiness was last set. Nor
-- is `dropped`, which says that the timer was dropped.
pub record Alarm : Type 0 where
  pub wakeup_state : Tick
  pub token : Bool
  pub ready : Bool
  pub now : Tick
  pub thread : Pc
  pub callers : ℕ → Caller
  pub wanted : Tick
  pub dropped : Bool

-- The head of the loop, up to the call of `park`.
unfoldable pub look_at : (until now : Tick) → Pc
look_at until now =
    if until == terminate_thread
    then stopped
    else if ltb now until
    then parked until
    else exchange until

-- The exchange of the tick that is due by the largest `usize`.
unfoldable pub exchanged : (until state : Tick) → Tick × Pc
exchanged until state = if state == until then (tick_max, signal until) else (state, look state)

-- The loop of `schedule_readiness` from where `curr` has been read up to its next exchange.
unfoldable pub tested : (tick curr : Tick) → Caller
tested tick curr = if leb curr tick then away else trying tick curr

-- Its exchange.
unfoldable pub tried : (tick curr state : Tick) → Tick × Caller
unfolding tested
tried tick curr state = if state == curr then (tick, unparking tick) else (state, tested tick state)

-- A call that has found or left a tick that is early enough is remembered.
abbrev pub wanted_after : (tick wanted : Tick) → Caller → Tick
wanted_after tick wanted away = min tick wanted
wanted_after tick wanted (trying t c) = wanted
wanted_after tick wanted (unparking t) = min tick wanted

pub data Step (a : Alarm) : Alarm → Type 0 where
  time_passes : (now : Tick) → a.now ≤ now → Step a (record a { now = now })
  looks :
      (until : Tick) → a.thread ≡ look until → Step a (record a { thread = look_at until a.now })
  unparks :
      (until : Tick)
      → a.thread ≡ parked until
      → Step a (record a { thread = reload; token = false })
  reloads : a.thread ≡ reload → Step a (record a { thread = look a.wakeup_state })
  exchanges :
      (until : Tick)
      → a.thread ≡ exchange until
      → Step a (record a {
        wakeup_state = (exchanged until a.wakeup_state).0;
        thread = (exchanged until a.wakeup_state).1;
      })
  signals :
      (until : Tick)
      → a.thread ≡ signal until
      → Step a (record a { ready = true; thread = look tick_max; wanted = tick_max })
  calls :
      (i : ℕ) (tick : Tick)
      → tick ≤ tick_max
      → a.callers i ≡ away
      → Step a (record a {
        callers = update a.callers i (tested tick a.wakeup_state);
        wanted = wanted_after tick a.wanted (tested tick a.wakeup_state);
      })
  tries :
      (i : ℕ) (tick curr : Tick)
      → a.callers i ≡ trying tick curr
      → Step a (record a {
        wakeup_state = (tried tick curr a.wakeup_state).0;
        callers = update a.callers i (tried tick curr a.wakeup_state).1;
        wanted = wanted_after tick a.wanted (tried tick curr a.wakeup_state).1;
      })
  unparked :
      (i : ℕ) (tick : Tick)
      → a.callers i ≡ unparking tick
      → Step a (record a { token = true; callers = update a.callers i away })
  clears : Step a (record a { ready = false })
  drops :
      (i : ℕ)
      → a.callers i ≡ away
      → Step a (record a {
        wakeup_state = terminate_thread;
        callers = update a.callers i (unparking terminate_thread);
        dropped = true;
      })

-- As `register` leaves it, at time `now`, before the thread has read the word.
abbrev pub spawned : Tick → Alarm
spawned now = record {
  wakeup_state = tick_max;
  token = false;
  ready = false;
  now = now;
  thread = reload;
  callers = λ _. away;
  wanted = tick_max;
  dropped = false;
}

-- Any number of steps.
pub data Steps (a : Alarm) : Alarm → Type 0 where
  start : Steps a a
  later : {b c : Alarm} → Steps a b → Step b c → Steps a c

abbrev pub Reach : (now : Tick) → Alarm → Type 0
Reach now a = Steps (spawned now) a
