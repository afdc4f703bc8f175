-- ===== src/Connector/Defs.antt =====
-- `Connector` of src/net/connector.rs over the timer of its event loop, and the timer of the current
-- loop of the thread that runs its handlers. What the kernel and the poll answer is given with each operation. A
-- stream is a number.
use sickle.Base.{
  ℕ, ◌*◌, ◌/◌, ◌%◌, ◌-◌, Bool, Option, none, some, List, [], ◌∷◌, ◌==◌, if◌then◌else◌, Outcome, ok,
  panic, ◌>>=◌, unwrap,
}
use sickle.Bits.{word}
use sickle.Duration.{Duration, millis_per_sec, nanos_per_milli}
use sickle.Event.{Job, noop, TokenType, TokenEntry}
use sickle.Ready
use sickle.Ready.{Ready}
use sickle.PollOpt
use sickle.PollOpt.{PollOpt}
use sickle.Timer.{Timeout}
use sickle.EventLoop.{EventLoop, timeout, clear_timeout}

-- What the connector calls outside of itself and of the timer.
pub data Call : Type 0 where
  conn_job : Job → (stream : ℕ) → Call
  register : (stream : ℕ) → TokenEntry → Ready → PollOpt → Call
  deregister : (stream : ℕ) → Call

-- What `EventLoopBuilder::get_current_loop` gives on the thread that runs the handlers of a connector: it
-- panics on a thread without a loop, and the loop may be the connector's own or another one.
pub data Current : Type 0 where
  no_loop : Current
  own_loop : Current
  other_loop : EventLoop → Current

-- `on_timeout` is the closure that `connect` hands to the timer. `calls` holds the calls so far, the
-- latest first.
pub record Connector : Type 0 where
  pub timer : Option Timeout
  pub tcp_stream : Option ℕ
  pub event_loop : EventLoop
  pub current : Current
  pub on_conn_job : Job
  pub on_timeout : Job
  pub calls : List Call

-- `Connector::new`; the default connection job does nothing.
abbrev pub new : EventLoop → Current → Job → Connector
new event_loop current on_timeout = record {
  timer = none;
  tcp_stream = none;
  event_loop = event_loop;
  current = current;
  on_conn_job = noop;
  on_timeout = on_timeout;
  calls = [];
}

unfoldable pub set_conn_job : Connector → Job → Connector
set_conn_job c job = record c { on_conn_job = job }

-- The stream is handed over; what the job answers is not used. Without a stream the assertion fails.
unfoldable pub handle_on_connect : Connector → Outcome Connector
handle_on_connect c = elim c.tcp_stream [
  | none ↦ panic
  | some stream ↦
      ok (record c { tcp_stream = none; calls = conn_job c.on_conn_job stream ∷ c.calls })
]

-- The timeout is cancelled on the current loop.
unfoldable pub cancel_on : Connector → Timeout → Current → Outcome Connector
unfolding clear_timeout
cancel_on c t no_loop = panic
cancel_on c t own_loop = do
  (found, l) ← clear_timeout c.event_loop t
  ok (record c { event_loop = l })
cancel_on c t (other_loop o) = do
  (found, l) ← clear_timeout o t
  ok (record c { current = other_loop l })

-- The timeout is cancelled, but kept in its field.
unfoldable pub cancel_timer : Connector → Outcome Connector
unfolding cancel_on
cancel_timer c = elim c.timer [ none ↦ ok c | some t ↦ cancel_on c t c.current ]

-- The arguments of `debug!` are evaluated, and unwrap the stream, only where `logs` holds.
unfoldable pub handle_event : (logs : Bool) → Connector → Ready → Outcome Connector
unfolding cancel_timer handle_on_connect Ready.is_writable
handle_event logs c ready = do
  shown ← if logs then unwrap c.tcp_stream else ok 0
  c1 ← cancel_timer c
  if Ready.is_writable ready then handle_on_connect c1 else ok c1

-- `deregisters` is what the event loop answers.
unfoldable pub handle_close : Connector → (deregisters : Bool) → Outcome Connector
handle_close c deregisters = elim c.tcp_stream [
  | none ↦ ok c
  | some stream ↦
      if deregisters then ok (record c { calls = deregister stream ∷ c.calls }) else panic
]

-- The closure for the timer.
unfoldable pub run_timeout : Connector → (deregisters : Bool) → Outcome Connector
unfolding clear_timeout
run_timeout c deregisters = do
  t ← unwrap c.timer
  (found, l) ← clear_timeout c.event_loop t
  stream ← unwrap c.tcp_stream
  if deregisters
      then ok (record c { event_loop = l; calls = deregister stream ∷ c.calls })
      else panic

-- `Duration::from_millis`
abbrev pub from_millis : ℕ → Duration
from_millis ms = record {
  as_secs = ms / millis_per_sec;
  subsec_nanos = ms % millis_per_sec * nanos_per_milli;
}

abbrev pub connect_entry : TokenEntry
connect_entry = record { ttype = TokenType.socket_event; token = record { id = 9_999_999 } }

-- `set_timeout` has no error to return, so the branch for one is never taken.
unfoldable pub set_timer :
    Connector → (timeout_ms key : ℕ) → (elapsed : Duration) → Outcome Connector
unfolding timeout
set_timer c timeout_ms key elapsed = if timeout_ms == word - 1 then ok c else (do
  (t, l) ← timeout c.event_loop key elapsed (from_millis timeout_ms) c.on_timeout
  ok (record c { event_loop = l; timer = some t }))

-- `connect`: `connected` is the stream that `TcpStream::connect` gives, and `registers` what the event
-- loop answers. `key` and `elapsed` are for the timer.
unfoldable pub connect :
    Connector
    → (connected : Option ℕ) → (timeout_ms key : ℕ) → (elapsed : Duration) → (registers : Bool)
    → Outcome Connector
unfolding set_timer Ready.bitor PollOpt.bitor
connect c connected timeout_ms key elapsed registers = do
  stream ← unwrap connected
  c1 ← set_timer (record c { tcp_stream = some stream }) timeout_ms key elapsed
  let c2 : Connector = record c1 {
    calls =
        register stream connect_entry (Ready.bitor Ready.writable Ready.readable)
          (PollOpt.bitor PollOpt.edge PollOpt.oneshot)
        ∷ c1.calls;
  }
  if registers then ok c2 else panic
