-- ===== src/EventLoop/Defs.antt =====
-- `EventLoop` of src/net/event_loop.rs, over the timer and over what `Poll` returns.
use sickle.Base.{
  ℕ, zero, suc, ◌+◌, Bool, true, false, Option, none, some, List, [], ◌∷◌, if◌then◌else◌, get_elem?,
  Outcome, ok, out_of_fuel, ◌>>=◌, IoResult, success, failure, is_interrupted,
}
use sickle.Duration.{Duration}
use sickle.Event.{TokenType, ttype_eq, Job, JobEntry}
use sickle.Ready
use sickle.Timer.{
  Timer, Timeout, build, set_timeout, cancel_timeout, poll, capacity, num_slots, tick_duration,
  default as default_builder,
}
use sickle.LazyCell.{is_some}

pub record Config : Type 0 where
  pub notify_capacity : ℕ
  pub messages_per_tick : ℕ
  pub timer_tick : Duration
  pub timer_wheel_size : ℕ
  pub timer_capacity : ℕ

-- `Config::default`
abbrev pub default : Config
default = record {
  notify_capacity = 4_096;
  messages_per_tick = 256;
  timer_tick = record { as_secs = 0; subsec_nanos = 100_000_000 };
  timer_wheel_size = 1_024;
  timer_capacity = 65_536;
}

-- The timer that `configured` builds.
unfoldable pub configured_timer : Config → Timer Job
unfolding build
configured_timer config = build (
    capacity (num_slots (tick_duration default_builder config.timer_tick) config.timer_wheel_size)
      config.timer_capacity)

-- One call of a closure, with the readiness that it is given; a timer job is given none.
pub data Call : Type 0 where
  job : Job → ℕ → Call
  timer_job : Job → Call

-- `calls` lists the closures that ran, the latest first. `clock` is what `elapsed` shows at each poll of
-- the timer, `stops` which closures call `shutdown`, and `adjusts` what a closure does to the timer of the
-- loop, by setting and cancelling timeouts.
pub record EventLoop : Type 0 where
  pub run : Bool
  pub timer : Timer Job
  pub calls : List Call
  pub polls : ℕ
  pub clock : ℕ → Duration
  pub stops : Job → Bool
  pub adjusts : Job → Timer Job → Timer Job

unfoldable pub shutdown : EventLoop → EventLoop
shutdown l = record l { run = false }

-- A closure runs.
unfoldable pub invoke : EventLoop → Job → Call → EventLoop
unfolding shutdown
invoke l j c =
    let l1 : EventLoop = record l { calls = c ∷ l.calls; timer = l.adjusts j l.timer } in
    if l.stops j then shutdown l1 else l1

-- `timeout` and `clear_timeout`
unfoldable pub timeout :
    EventLoop → (key : ℕ) → (elapsed delay : Duration) → Job → Outcome (Timeout × EventLoop)
unfolding set_timeout
timeout l key elapsed delay j = do
  (t, timer) ← set_timeout l.timer key elapsed delay j
  ok (t, record l { timer = timer })

unfoldable pub clear_timeout : EventLoop → Timeout → Outcome (Bool × EventLoop)
unfolding cancel_timeout
clear_timeout l t = do
  (state, timer) ← cancel_timeout l.timer t
  ok (is_some state, record l { timer = timer })

-- `while let Some(mut t) = timer.poll() { t(); }`
unfoldable pub drain_timer : ℕ → EventLoop → Outcome EventLoop
unfolding poll invoke
drain_timer zero l = out_of_fuel
drain_timer (suc fuel) l = do
  (state, timer) ← poll (suc fuel) (l.clock l.polls) l.timer
  let l1 : EventLoop = record l { timer = timer; polls = l.polls + 1 }
  elim state [ none ↦ ok l1 | some t ↦ drain_timer fuel (invoke l1 t (timer_job t)) ]

-- The body of the loop of `io_process`.
unfoldable pub process_entry : ℕ → Option JobEntry → EventLoop → Outcome EventLoop
unfolding drain_timer invoke
process_entry fuel none l = ok l
process_entry fuel (some entry) l =
    if ttype_eq entry.token_entry.ttype TokenType.timers_event
    then drain_timer fuel l
    else ok (invoke l entry.job (job entry.job (Ready.as_usize entry.ready)))

-- `io_process` from index `i` on, with `left` rounds to go.
unfoldable pub process_from : ℕ → List JobEntry → (i left : ℕ) → EventLoop → Outcome EventLoop
unfolding process_entry
process_from fuel entries i zero l = ok l
process_from fuel entries i (suc left) l = do
  l1 ← process_entry fuel (get_elem? entries i) l
  process_from fuel entries (i + 1) left l1

unfoldable pub io_process : ℕ → List JobEntry → (cnt : ℕ) → EventLoop → Outcome EventLoop
unfolding process_from
io_process fuel entries cnt l = process_from fuel entries 0 cnt l

-- What one call of `Poll::poll` gives: its result, and the entries of `events`.
pub record Polled : Type 0 where
  pub result : IoResult ℕ
  pub entries : List JobEntry

unfoldable pub run_once : ℕ → Polled → EventLoop → Outcome (IoResult (Unit {0}) × EventLoop)
unfolding io_process
run_once fuel polled l = elim polled.result [
  | success cnt ↦ (do l1 ← io_process fuel polled.entries cnt l; ok (success tt, l1))
  | failure e ↦
      if is_interrupted e
      then (do l1 ← io_process fuel polled.entries 0 l; ok (success tt, l1))
      else ok (failure e, l)
]

-- The loop of `run` over what the polls give; when there is none left it waits for ever, here
-- `out_of_fuel`.
unfoldable pub run_loop : ℕ → List Polled → EventLoop → Outcome (IoResult (Unit {0}) × EventLoop)
unfolding run_once
run_loop fuel [] l = if l.run then out_of_fuel else ok (success tt, l)
run_loop fuel (p ∷ ps) l =
    if l.run
    then (do
      (r, l1) ← run_once fuel p l
      elim r [ success _ ↦ run_loop fuel ps l1 | failure e ↦ ok (failure e, l1) ])
    else ok (success tt, l)

unfoldable pub run : ℕ → List Polled → EventLoop → Outcome (IoResult (Unit {0}) × EventLoop)
unfolding run_loop
run fuel ps l = run_loop fuel ps (record l { run = true })
