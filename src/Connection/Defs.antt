-- ===== src/Connection/Defs.antt =====
-- `TcpConnection` of src/net/connection.rs. The socket is not part of the program: what its calls
-- return is given with each operation. The mutex round a connection keeps its jobs from using it.
use sickle.Base.{
  ℕ, suc, Bool, true, false, List, [], ◌∷◌, ◌++◌, ◌==◌, ◌&&◌, ◌||◌, ltb, if◌then◌else◌, length,
  take, drop, Outcome, ok, panic, out_of_fuel, ◌>>=◌,
}
use sickle.Event.{Job, noop}
use sickle.Ready
use sickle.Ready.{Ready}

abbrev pub Bytes : Type 0
Bytes = List ℕ

-- What `try_read_buf` returns: `Ok(None)`, `Ok(Some(_))` with the bytes, or `Err`.
pub data Arrival : Type 0 where
  no_more : Arrival
  bytes : Bytes → Arrival
  failed : Arrival

-- What `try_write_buf` returns: `Ok(None)`, `Ok(Some(count))`, or `Err`.
pub data Written : Type 0 where
  not_now : Written
  count : ℕ → Written
  broken : Written

-- What the connection calls outside of itself.
pub data Call : Type 0 where
  read_job : Bytes → Call
  writ_job : Call
  close_job : Call
  deregister : Call

pub data Shutdown : Type 0 where
  read write both : Shutdown

-- `on_read` is what the read job leaves in the buffer, `on_writ` what the write job answers at each of
-- its calls, `on_close` the close job, and `deregisters` whether the event loop accepts to deregister the stream. `wire` holds
-- the bytes that the socket has accepted, and `calls` the calls so far, the latest first.
pub record TcpConnection : Type 0 where
  pub read_buffer : Bytes
  pub write_buffer_sending : Bytes
  pub write_buffer_waiting : Bytes
  pub on_read : Bytes → Bytes
  pub on_writ : ℕ → Bool
  pub on_close : Job
  pub deregisters : Bool
  pub read_enabled : Bool
  pub write_enabled : Bool
  pub read_triggered : Bool
  pub write_triggered : Bool
  pub closed : Bool
  pub wire : Bytes
  pub calls : List Call

-- `TcpConnection::new`, with its default jobs.
abbrev pub new : TcpConnection
new = record {
  read_buffer = [];
  write_buffer_sending = [];
  write_buffer_waiting = [];
  on_read = λ b. b;
  on_writ = λ _. true;
  on_close = noop;
  deregisters = true;
  read_enabled = true;
  write_enabled = true;
  read_triggered = false;
  write_triggered = false;
  closed = false;
  wire = [];
  calls = [];
}

abbrev pub call : TcpConnection → Call → TcpConnection
call c x = record c { calls = x ∷ c.calls }

unfoldable pub connected : TcpConnection → Bool
connected c = c.read_triggered || c.write_triggered

unfoldable pub set_enabled : TcpConnection → Bool → TcpConnection
set_enabled c enable = record c { read_enabled = enable; write_enabled = enable }

-- `close_stream` unwraps what the event loop answers.
unfoldable pub close_stream : TcpConnection → Outcome TcpConnection
close_stream c = if c.deregisters then ok (call c Call.deregister) else panic

unfoldable pub handle_close : TcpConnection → Outcome TcpConnection
unfolding set_enabled close_stream
handle_close c =
    if c.closed
    then ok c
    else close_stream (call (record (set_enabled c false) { closed = true }) Call.close_job)

-- The read job sees the buffer with what has arrived, and leaves some of it.
unfoldable pub run_read_job : TcpConnection → Bytes → TcpConnection
run_read_job c arrived =
    let buf = c.read_buffer ++ arrived in
    call (record c { read_buffer = c.on_read buf }) (Call.read_job buf)

-- The loop of `handle_read`, over what the socket returns. A socket that is drained says so in the end;
-- a list that ends before is `out_of_fuel`.
unfoldable pub handle_read : TcpConnection → List Arrival → Outcome TcpConnection
unfolding handle_close run_read_job
handle_read c [] = out_of_fuel
handle_read c (no_more ∷ rest) = ok (record c { read_triggered = false })
handle_read c (bytes [] ∷ rest) =
    handle_close (record (run_read_job c []) { read_triggered = false })
handle_read c (bytes (b ∷ bs) ∷ rest) = handle_read (run_read_job c (b ∷ bs)) rest
handle_read c (failed ∷ rest) = handle_close (record c { read_triggered = false })

-- The number of calls of the write job so far.
abbrev pub writ_calls : List Call → ℕ
writ_calls [] = 0
writ_calls (writ_job ∷ cs) = suc (writ_calls cs)
writ_calls (read_job _ ∷ cs) = writ_calls cs
writ_calls (close_job ∷ cs) = writ_calls cs
writ_calls (deregister ∷ cs) = writ_calls cs

-- `write_data` from where `buf` has been split off; `buf` is dropped at the end, with what is left in
-- it.
unfoldable pub write_buf : TcpConnection → Bytes → Written → Outcome TcpConnection
unfolding handle_close
write_buf c buf not_now = ok (record c { write_triggered = false })
write_buf c buf (count r) =
    let c1 : TcpConnection = record c { wire = c.wire ++ take r buf } in
    if ltb 0 (length (drop r buf))
    then ok c1
    else (let c2 : TcpConnection = call (record c1 { write_triggered = false }) Call.writ_job in
        if c2.on_writ (writ_calls c.calls) then ok c2 else handle_close c2)
write_buf c buf broken = handle_close (record c { write_triggered = false })

unfoldable pub write_data : TcpConnection → Written → Outcome TcpConnection
unfolding write_buf
write_data c w =
    if ltb 0 (length c.write_buffer_sending)
    then write_buf (record c { write_buffer_sending = [] }) c.write_buffer_sending w
    else if ltb 0 (length c.write_buffer_waiting)
    then write_buf (record c { write_buffer_waiting = [] }) c.write_buffer_waiting w
    else ok c

unfoldable pub send : TcpConnection → Bytes → Written → Outcome (ℕ × TcpConnection)
unfolding write_data
send c bs w =
    if c.write_enabled
    then (if length bs == 0 then ok (0, c) else (do
      c1 ← write_data (record c { write_buffer_waiting = c.write_buffer_waiting ++ bs }) w
      ok (length bs, c1)))
    else ok (0, c)

unfoldable pub handle_write : TcpConnection → Written → Outcome TcpConnection
unfolding write_data
handle_write c w =
    let empty_waiting = length c.write_buffer_waiting == 0 in
    let empty_sending = length c.write_buffer_sending == 0 in
    if empty_waiting && empty_sending then ok c else write_data c w

unfoldable pub handle_event : TcpConnection → Ready → List Arrival → Written → Outcome TcpConnection
unfolding handle_read handle_write handle_close Ready.is_readable Ready.is_writable Ready.is_error
    Ready.is_hup
handle_event c ready arrivals w = do
  c1 ←
      if Ready.is_readable ready
      then handle_read (record c { read_triggered = true }) arrivals
      else ok c
  c2 ←
      if Ready.is_writable ready
      then handle_write (record c1 { write_triggered = true }) w
      else ok c1
  if Ready.is_error ready || Ready.is_hup ready
      then handle_close (record c2 { read_triggered = true; write_triggered = true })
      else ok c2

-- `shutdown`, up to the call of the socket.
unfoldable pub shutdown : TcpConnection → Shutdown → TcpConnection
unfolding set_enabled
shutdown c read = record c { read_enabled = false }
shutdown c write = record c { write_enabled = false }
shutdown c both = set_enabled c false
