-- ===== src/Connection/Close.antt =====
-- Closing a connection of src/net/connection.rs: at most once, whatever the events.
use sickle.Base.{
  ℕ, suc, ◌≡◌, true, false, List, [], ◌∷◌, After, After-bind, After-if, After-last, ok, ◌>>=◌,
  arith, if◌then◌else◌, ◌||◌, ◌&&◌, ◌==◌, ltb, length,
}
use sickle.Ready
use sickle.Ready.{Ready}
use sickle.Connection.Defs.{
  Arrival, no_more, bytes, failed, Written, not_now, count, broken, Call, TcpConnection,
  handle_close, handle_read, run_read_job, write_buf, write_data, handle_write, handle_event, Bytes,
}

-- How often the close job was called, and how often the stream was deregistered.
abbrev pub closes : List Call → ℕ
closes [] = 0
closes (Call.close_job ∷ cs) = suc (closes cs)
closes (Call.read_job _ ∷ cs) = closes cs
closes (Call.writ_job ∷ cs) = closes cs
closes (Call.deregister ∷ cs) = closes cs

abbrev pub deregistrations : List Call → ℕ
deregistrations [] = 0
deregistrations (Call.deregister ∷ cs) = suc (deregistrations cs)
deregistrations (Call.close_job ∷ cs) = deregistrations cs
deregistrations (Call.read_job _ ∷ cs) = deregistrations cs
deregistrations (Call.writ_job ∷ cs) = deregistrations cs

-- A closed connection has run its close job once and been deregistered once; an open one neither.
pub record ClosesOnce (c : TcpConnection) : Type 0 where
  pub closed_count : closes c.calls ≡ (if c.closed then 1 else 0)
  pub deregistered_count : deregistrations c.calls ≡ (if c.closed then 1 else 0)

handle_close-ClosesOnce : (c : TcpConnection) → ClosesOnce c → After ClosesOnce (handle_close c)
unfolding handle_close
handle_close-ClosesOnce c h = ground arith

handle_read-ClosesOnce :
    (c : TcpConnection) (arrivals : List Arrival)
    → ClosesOnce c
    → After ClosesOnce (handle_read c arrivals)
unfolding handle_read
handle_read-ClosesOnce c [] h = tt
handle_read-ClosesOnce c (no_more ∷ rest) h = ground arith
handle_read-ClosesOnce c (bytes [] ∷ rest) h =
    handle_close-ClosesOnce (record (run_read_job c []) { read_triggered = false }) (ground arith)
handle_read-ClosesOnce c (bytes (b ∷ bs) ∷ rest) h =
    handle_read-ClosesOnce (run_read_job c (b ∷ bs)) rest (ground arith)
handle_read-ClosesOnce c (failed ∷ rest) h =
    handle_close-ClosesOnce (record c { read_triggered = false }) (ground arith)

write_buf-ClosesOnce :
    (c : TcpConnection) (buf : Bytes) (w : Written)
    → ClosesOnce c
    → After ClosesOnce (write_buf c buf w)
unfolding write_buf
write_buf-ClosesOnce c buf not_now h = ground arith
write_buf-ClosesOnce c buf (count r) h = ground arith
write_buf-ClosesOnce c buf broken h =
    handle_close-ClosesOnce (record c { write_triggered = false }) (ground arith)

write_data-ClosesOnce :
    (c : TcpConnection) (w : Written) → ClosesOnce c → After ClosesOnce (write_data c w)
unfolding write_data
write_data-ClosesOnce c w h =
    After-if ClosesOnce (ltb 0 (length c.write_buffer_sending)) _ _
      (write_buf-ClosesOnce (record c { write_buffer_sending = [] }) c.write_buffer_sending w
        (ground arith))
      (After-if ClosesOnce (ltb 0 (length c.write_buffer_waiting)) _ _
        (write_buf-ClosesOnce (record c { write_buffer_waiting = [] }) c.write_buffer_waiting w
          (ground arith))
        h)

handle_write-ClosesOnce :
    (c : TcpConnection) (w : Written) → ClosesOnce c → After ClosesOnce (handle_write c w)
unfolding handle_write
handle_write-ClosesOnce c w h =
    After-if ClosesOnce (length c.write_buffer_waiting == 0 && length c.write_buffer_sending == 0)
      (ok c) (write_data c w) h (write_data-ClosesOnce c w h)

handle_close-closed : (c : TcpConnection) → After (λ c'. c'.closed ≡ true) (handle_close c)
unfolding handle_close
handle_close-closed c = ground arith

-- An event keeps the count, with what the socket returns left open: if the handler returns, a closed
-- connection has run its close job exactly once and been deregistered exactly once, and an open one
-- neither.
pub handle_event-ClosesOnce :
    (c : TcpConnection) (ready : Ready) (arrivals : List Arrival) (w : Written)
    → ClosesOnce c
    → After ClosesOnce (handle_event c ready arrivals w)
unfolding handle_event
handle_event-ClosesOnce c ready arrivals w h =
    After-bind ClosesOnce ClosesOnce _ _
      (After-if ClosesOnce (Ready.is_readable ready) _ _
        (handle_read-ClosesOnce (record c { read_triggered = true }) arrivals (ground arith)) h)
      (λ c1 h1.
        After-bind ClosesOnce ClosesOnce _ _
          (After-if ClosesOnce (Ready.is_writable ready) _ _
            (handle_write-ClosesOnce (record c1 { write_triggered = true }) w (ground arith)) h1)
          (λ c2 h2.
            After-if ClosesOnce (Ready.is_error ready || Ready.is_hup ready) _ _
              (handle_close-ClosesOnce (record c2 { read_triggered = true; write_triggered = true })
                (ground arith))
              h2))

-- After an event with the error or the hang-up flag a connection is closed, if the handler returns.
pub handle_event-closed :
    (c : TcpConnection) (ready : Ready) (arrivals : List Arrival) (w : Written)
    → (Ready.is_error ready || Ready.is_hup ready) ≡ true
    → After (λ c'. c'.closed ≡ true) (handle_event c ready arrivals w)
unfolding handle_event
handle_event-closed c ready arrivals w h =
    let closed = λ (c' : TcpConnection). c'.closed ≡ true in
    let mark =
      λ (c2 : TcpConnection). record c2 { read_triggered = true; write_triggered = true } in
    let write = λ (c1 : TcpConnection).
      (if Ready.is_writable ready
        then handle_write (record c1 { write_triggered = true }) w
        else ok c1) in
    let close = λ (c2 : TcpConnection). handle_close (mark c2) in
    rw h (
      After-last closed
        (if Ready.is_readable ready
          then handle_read (record c { read_triggered = true }) arrivals
          else ok c)
        (λ c1. write c1 >>= close)
        (λ c1. After-last closed (write c1) close (λ c2. handle_close-closed (mark c2))))
