-- ===== src/Connector/Laws.antt =====
-- A connector hands its stream over once and ends its timeout, src/net/connector.rs.
use sickle.Base.{
  ℕ, ◌+◌, ◌≡◌, refl, ◌∙◌, inl, inr, Bool, true, Option, none, some, List, [], ◌∷◌, Outcome, ok,
  ◌>>=◌, After, After-bind, After-if, After-last, panic, out_of_fuel, unwrap, arith, Bool-cases,
  Option-cases, if◌then◌else◌, ◌==◌,
}
use sickle.Ready
use sickle.Ready.{Ready}
use sickle.Event.{Job}
use sickle.Timer.{Timer, Timeout, cancel_timeout}
use sickle.Timer.Slots.Wheel.{IsOrdered}
use sickle.Timer.Slots.Cancel.{timeouts, cancelled, cancel_timeout-IsOrdered}
use sickle.EventLoop.{EventLoop, clear_timeout}
use sickle.Connector.Defs.{
  Call, conn_job, register, deregister, Current, no_loop, own_loop, other_loop, Connector,
  cancel_on, cancel_timer, handle_on_connect, handle_event,
}

-- The streams handed over, and the one that is still to be.
pub handed_calls : List Call → ℕ
handed_calls [] = 0
handed_calls (conn_job j s ∷ cs) = handed_calls cs + 1
handed_calls (register s e r o ∷ cs) = handed_calls cs
handed_calls (deregister s ∷ cs) = handed_calls cs

abbrev pub pending : Option ℕ → ℕ
pending none = 0
pending (some s) = 1

abbrev pub handed : Connector → ℕ
handed c = handed_calls c.calls + pending c.tcp_stream

-- Any number of events, one after the other; the first of each pair says whether the event is logged.
pub run_events : Connector → List (Bool × Ready) → Outcome Connector
run_events c [] = ok c
run_events c ((logs, ready) ∷ events) = do c1 ← handle_event logs c ready; run_events c1 events

abbrev SameHanded : Connector → Connector → Type 0
SameHanded c c' = handed c' ≡ handed c

cancel_on-SameHanded :
    (c : Connector) (t : Timeout) (current : Current) → After (SameHanded c) (cancel_on c t current)
unfolding cancel_on
cancel_on-SameHanded c t no_loop = tt
cancel_on-SameHanded c t own_loop =
    After-last (SameHanded c) (clear_timeout c.event_loop t)
      (λ (r : Bool × EventLoop). ok (record c { event_loop = r.1 })) (λ r. refl)
cancel_on-SameHanded c t (other_loop o) =
    After-last (SameHanded c) (clear_timeout o t)
      (λ (r : Bool × EventLoop). ok (record c { current = other_loop r.1 })) (λ r. refl)

cancel_timer-SameHanded : (c : Connector) → After (SameHanded c) (cancel_timer c)
unfolding cancel_timer
cancel_timer-SameHanded c = elim (Option-cases c.timer) [
  | inl off ↦ rw (off, cancel_timer) refl
  | inr (t, on) ↦ rw (on, cancel_timer) (cancel_on-SameHanded c t c.current)
]

handle_on_connect-SameHanded : (c : Connector) → After (SameHanded c) (handle_on_connect c)
unfolding handle_on_connect handed_calls
handle_on_connect-SameHanded c = elim (Option-cases c.tcp_stream) [
  | inl gone ↦ rw (gone, handle_on_connect) tt
  | inr (s, there) ↦ rw (there, handle_on_connect) (ground arith)
]

-- What keeps the number goes on doing so.
After-SameHanded :
    (c c1 : Connector) (r : Outcome Connector)
    → SameHanded c c1
    → After (SameHanded c1) r
    → After (SameHanded c) r
After-SameHanded c c1 (ok c2) same h = h ∙ same
After-SameHanded c c1 panic same h = tt
After-SameHanded c c1 out_of_fuel same h = tt

handle_event-SameHanded :
    (logs : Bool) (c : Connector) (ready : Ready) → After (SameHanded c) (handle_event logs c ready)
unfolding handle_event
handle_event-SameHanded logs c ready =
    After-last (SameHanded c) (if logs then unwrap c.tcp_stream else ok 0) _ (λ _.
      After-bind (SameHanded c) (SameHanded c) (cancel_timer c) _ (cancel_timer-SameHanded c)
        (λ c1 same.
          After-if (SameHanded c) (Ready.is_writable ready) (handle_on_connect c1) (ok c1)
            (After-SameHanded c c1 (handle_on_connect c1) same (handle_on_connect-SameHanded c1))
            same))

cancel_timer-cancels :
    (c : Connector) (t : Timeout) (timer : Timer Job)
    → c.timer ≡ some t
    → c.current ≡ own_loop
    → cancel_timeout c.event_loop.timer t ≡ ok (cancelled c.event_loop.timer t, timer)
    → cancel_timer c ≡ ok (record c { event_loop = record c.event_loop { timer = timer } })
unfolding cancel_timer cancel_on clear_timeout
cancel_timer-cancels c t timer set own runs = ground (arith, set, own, runs)

-- Whatever events come to a connector and however often, if the handler returns from each, the
-- stream is handed over at most once, and is still there otherwise: the calls of the connection job
-- and the stream that waits are as many as before.
pub run_events-handed :
    (c : Connector) (events : List (Bool × Ready))
    → After (λ c'. handed c' ≡ handed c) (run_events c events)
unfolding run_events
run_events-handed c [] = refl
run_events-handed c ((logs, ready) ∷ events) =
    After-bind (SameHanded c) (SameHanded c) (handle_event logs c ready)
      (λ c1. run_events c1 events) (handle_event-SameHanded logs c ready)
      (λ c1 same. After-SameHanded c c1 (run_events c1 events) same (run_events-handed c1 events))

writable_event :
    (logs : Bool) (c c1 : Connector) (ready : Ready) (stream : ℕ)
    → c.tcp_stream ≡ some stream
    → c1.tcp_stream ≡ some stream
    → cancel_timer c ≡ ok c1
    → Ready.is_writable ready ≡ true
    → handle_event logs c ready
      ≡ ok (record c1 { tcp_stream = none; calls = conn_job c1.on_conn_job stream ∷ c1.calls })
unfolding handle_event handle_on_connect
writable_event logs c c1 ready stream has has' cancels writes = elim (Bool-cases logs) [
  | inl on ↦ ground (arith, has, cancels, has')
  | inr off ↦ ground (arith, cancels, has')
]

-- A writable event on a connector with a stream and a timeout, on a thread whose current loop is the
-- connector's own, and whose wheel is ordered, hands the stream over, cancels the timeout and leaves an ordered wheel with every other timeout: if the
-- entry of the timeout was there, it is gone.
pub handle_event-connects :
    (logs : Bool) (c : Connector) (ready : Ready) (stream : ℕ) (t : Timeout)
    → c.tcp_stream ≡ some stream
    → c.timer ≡ some t
    → c.current ≡ own_loop
    → IsOrdered c.event_loop.timer
    → Ready.is_writable ready ≡ true
    → (c' : Connector) × (handle_event logs c ready ≡ ok c')
      × (c'.tcp_stream ≡ none)
      × (c'.calls ≡ conn_job c.on_conn_job stream ∷ c.calls)
      × IsOrdered c'.event_loop.timer
      × ((k : ℕ)
          → timeouts c'.event_loop.timer k ≡ (elim (cancelled c.event_loop.timer t) [
            | none ↦ timeouts c.event_loop.timer k
            | some j ↦ if k == t.token then none else timeouts c.event_loop.timer k
          ]))
unfolding handle_event handle_on_connect cancel_timer cancel_on clear_timeout
handle_event-connects logs c ready stream t has set own v writes =
    let (timer, runs, v', others) = cancel_timeout-IsOrdered c.event_loop.timer t v in
    (
      record c {
        tcp_stream = none;
        event_loop = record c.event_loop { timer = timer };
        calls = conn_job c.on_conn_job stream ∷ c.calls;
      },
      writable_event logs c (record c { event_loop = record c.event_loop { timer = timer } }) ready
          stream has has (cancel_timer-cancels c t timer set own runs) writes,
      refl,
      refl,
      v',
      others,
    )
