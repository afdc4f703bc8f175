-- ===== src/Connection/Returns.antt =====
-- The handlers of src/net/connection.rs return.
use sickle.Base.{
  ◌≡◌, refl, Bool, true, false, List, [], ◌∷◌, Outcome, ok, ◌>>=◌, if◌then◌else◌, ◌||◌, ltb, length,
  take, drop, ◌++◌,
}
use sickle.Ready
use sickle.Ready.{Ready}
use sickle.Connection.Defs.{
  Arrival, no_more, bytes, failed, Written, not_now, count, broken, Call, TcpConnection,
  handle_close, close_stream, set_enabled, handle_read, run_read_job, write_buf, write_data,
  handle_write, handle_event, Bytes, writ_calls, call,
}

-- What the socket returns ends the loop of reads: there is no more, the stream has ended, or an error.
unfoldable pub ends : List Arrival → Bool
ends [] = false
ends (no_more ∷ rest) = true
ends (bytes [] ∷ rest) = true
ends (bytes (b ∷ bs) ∷ rest) = ends rest
ends (failed ∷ rest) = true

-- A result that may be closed again: it returns, and the event loop still accepts to deregister.
Returns : Outcome TcpConnection → Type 0
Returns m = (c' : TcpConnection) × (m ≡ ok c') × (c'.deregisters ≡ true)

Returns-bind :
    (m : Outcome TcpConnection) (k : TcpConnection → Outcome TcpConnection)
    → Returns m
    → ((c : TcpConnection) → c.deregisters ≡ true → Returns (k c))
    → Returns (m >>= k)
unfolding Returns
Returns-bind m k (c, e, d) step = rw e (step c d)

Returns-if :
    (b : Bool) (x y : Outcome TcpConnection) → Returns x → Returns y → Returns (if b then x else y)
Returns-if true x y h g = h
Returns-if false x y h g = g

Returns-then :
    (b : Bool) (x y : Outcome TcpConnection) → b ≡ true → Returns x → Returns (if b then x else y)
Returns-then true x y e h = h
Returns-then false x y e h = absurd (cc)

Returns-ok : (c : TcpConnection) → c.deregisters ≡ true → Returns (ok c)
unfolding Returns
Returns-ok c d = (c, refl, d)

handle_close-Returns : (c : TcpConnection) → c.deregisters ≡ true → Returns (handle_close c)
unfolding handle_close
handle_close-Returns c d =
    let open' = call (record (set_enabled c false) { closed = true }) Call.close_job in
    Returns-if c.closed (ok c) (close_stream open') (Returns-ok c d)
      (Returns-then _ _ _ d (Returns-ok (call open' Call.deregister) d))

handle_read-Returns :
    (c : TcpConnection) (arrivals : List Arrival)
    → c.deregisters ≡ true
    → ends arrivals ≡ true
    → Returns (handle_read c arrivals)
unfolding handle_read ends
handle_read-Returns c [] d e = absurd (cc)
handle_read-Returns c (no_more ∷ rest) d e = Returns-ok (record c { read_triggered = false }) d
handle_read-Returns c (bytes [] ∷ rest) d e =
    handle_close-Returns (record (run_read_job c []) { read_triggered = false }) d
handle_read-Returns c (bytes (b ∷ bs) ∷ rest) d e =
    handle_read-Returns (run_read_job c (b ∷ bs)) rest d e
handle_read-Returns c (failed ∷ rest) d e =
    handle_close-Returns (record c { read_triggered = false }) d

write_buf-Returns :
    (c : TcpConnection) (buf : Bytes) (w : Written)
    → c.deregisters ≡ true
    → Returns (write_buf c buf w)
unfolding write_buf
write_buf-Returns c buf not_now d = Returns-ok (record c { write_triggered = false }) d
write_buf-Returns c buf (count r) d =
    let sent : TcpConnection = record c { wire = c.wire ++ take r buf } in
    let asked = call (record sent { write_triggered = false }) Call.writ_job in
    Returns-if (ltb 0 (length (drop r buf))) (ok sent) _ (Returns-ok sent d) (
      Returns-if (c.on_writ (writ_calls c.calls)) (ok asked) (handle_close asked)
        (Returns-ok asked d) (handle_close-Returns asked d))
write_buf-Returns c buf broken d = handle_close-Returns (record c { write_triggered = false }) d

write_data-Returns :
    (c : TcpConnection) (w : Written) → c.deregisters ≡ true → Returns (write_data c w)
unfolding write_data
write_data-Returns c w d =
    Returns-if _ _ _
      (write_buf-Returns (record c { write_buffer_sending = [] }) c.write_buffer_sending w d)
      (Returns-if _ _ _
        (write_buf-Returns (record c { write_buffer_waiting = [] }) c.write_buffer_waiting w d)
        (Returns-ok c d))

handle_write-Returns :
    (c : TcpConnection) (w : Written) → c.deregisters ≡ true → Returns (handle_write c w)
unfolding handle_write
handle_write-Returns c w d =
    Returns-if _ (ok c) (write_data c w) (Returns-ok c d) (write_data-Returns c w d)

handle_event-Returns :
    (c : TcpConnection) (ready : Ready) (arrivals : List Arrival) (w : Written)
    → c.deregisters ≡ true
    → ends arrivals ≡ true
    → Returns (handle_event c ready arrivals w)
unfolding handle_event
handle_event-Returns c ready arrivals w d e =
    Returns-bind _ _
      (Returns-if (Ready.is_readable ready) _ _
        (handle_read-Returns (record c { read_triggered = true }) arrivals d e) (Returns-ok c d))
      (λ c1 d1.
        Returns-bind _ _
          (Returns-if (Ready.is_writable ready) _ _
            (handle_write-Returns (record c1 { write_triggered = true }) w d1) (Returns-ok c1 d1))
          (λ c2 d2.
            Returns-if (Ready.is_error ready || Ready.is_hup ready) _ _
              (handle_close-Returns (record c2 { read_triggered = true; write_triggered = true })
                d2)
              (Returns-ok c2 d2)))

-- If the event loop accepts to deregister the stream and what the socket returns ends in no more data,
-- in an error or in the end of the stream, the handler of an event returns: no unwrap fails, and the
-- loop of reads ends.
pub handle_event-returns :
    (c : TcpConnection) (ready : Ready) (arrivals : List Arrival) (w : Written)
    → c.deregisters ≡ true
    → ends arrivals ≡ true
    → (c' : TcpConnection) × (handle_event c ready arrivals w ≡ ok c')
unfolding Returns
handle_event-returns c ready arrivals w d e =
    let (c', done, _) = handle_event-Returns c ready arrivals w d e in (c', done)
