-- ===== src/TcpServer/Client.antt =====
-- The connection job of a client, src/net/tcp_server.rs.
use sickle.Base.{
  ℕ, ◌≡◌, refl, Bool, true, false, Option, none, some, ◌∷◌, update, arith, ok, IoResult, success,
  failure, ErrorKind,
}
use sickle.Event.{Job}
use sickle.Selector.{Selector}
use sickle.Connection.{set_enabled}
use sickle.Sockets.{TcpStream}
use sickle.TcpServer.Defs.{
  Handler, attach_connection, on_connect, on_error, Client, attach, conn_job, wired,
}
use sickle.TcpServer.Laws.{Knows, owned, knowing, knowing-Knows}

-- What the connection job of a client has done: a connection, or an error.
abbrev pub Attached : Client → Client → Handler → TcpStream → Job → Type 0
Attached c c' h stream job =
    Knows c'.selector stream.sys stream.sys job
    × (c'.served
        ≡ some (record { stream = owned c.selector stream; conn = set_enabled (wired h) true }))
    × (c'.calls ≡ on_connect ∷ attach_connection ∷ c.calls)

abbrev pub Failed : Client → Client → TcpStream → Type 0
Failed c c' stream =
    (c'.selector.events_map ≡ c.selector.events_map)
    × (c'.selector.kernel ≡ update c.selector.kernel stream.sys none)
    × (c'.served ≡ c.served)
    × (c'.calls ≡ on_error ∷ c.calls)

-- The answer and the state, by what `take_error` returned.
abbrev pub Did :
    IoResult (Option ErrorKind) → Bool → Client → Client → Handler → TcpStream → Job → Type 0
Did (success (some e)) b c c' h stream job = (b ≡ false) × Failed c c' stream
Did (success none) b c c' h stream job = (b ≡ true) × Attached c c' h stream job
Did (failure e) b c c' h stream job = (b ≡ true) × Attached c c' h stream job

-- The selector without the entry of the connector.
abbrev freed : Selector → ℕ → Selector
freed sel fd = record sel {
  kernel = update sel.kernel fd none;
  events_map = update sel.events_map fd none;
}

-- The state that `attach` leads to.
unfoldable attached : Client → Handler → TcpStream → Job → Client
unfolding set_enabled
attached c h stream job = record {
  selector = knowing (freed (h.opens c.selector) stream.sys) stream.sys stream.sys job;
  served = some (record { stream = owned c.selector stream; conn = set_enabled (wired h) true });
  calls = on_connect ∷ attach_connection ∷ c.calls;
}

attach-attached :
    (c : Client) (h : Handler) (stream : TcpStream) (job : Job)
    → stream.selector_id.id ≡ c.selector.id
    → (h.opens c.selector).id ≡ c.selector.id
    → attach c h stream job true true ≡ ok (true, attached c h stream job)
unfolding attach attached
attach-attached c h stream job own keeps = ground (arith, own, keeps)

attached-Attached :
    (c : Client) (h : Handler) (stream : TcpStream) (job : Job)
    → Attached c (attached c h stream job) h stream job
unfolding attached
attached-Attached c h stream job =
    (knowing-Knows (freed (h.opens c.selector) stream.sys) stream.sys stream.sys job, refl, refl)

-- The connection job of a client, for a stream of the loop's selector where the system accepts to
-- deregister and register it and the handler does not change the identity of the selector, returns.
-- If the stream had an error, it answers false, there is no connection, the kernel no longer knows the
-- descriptor, which is closed, while the map still has the entry of the connector, and of the
-- handler only on_error is called. Otherwise it answers true, there is an enabled connection with
-- the handler's jobs, the selector knows the stream under its descriptor with the job of the
-- connection, and the handler was attached and then on_connect is called.
pub conn_job_lem :
    (c : Client) (h : Handler) (stream : TcpStream) (job : Job)
    (error : IoResult (Option ErrorKind))
    → stream.selector_id.id ≡ c.selector.id
    → (h.opens c.selector).id ≡ c.selector.id
    → (b : Bool) × (c' : Client) × (conn_job c h stream job error true true ≡ ok (b, c'))
      × Did error b c c' h stream job
unfolding conn_job
conn_job_lem c h stream job (success (some e)) own keeps =
    (false, _, refl, (refl, (refl, refl, refl, refl)))
conn_job_lem c h stream job (success none) own keeps =
    (true, _, attach-attached c h stream job own keeps, (refl, attached-Attached c h stream job))
conn_job_lem c h stream job (failure e) own keeps =
    (true, _, attach-attached c h stream job own keeps, (refl, attached-Attached c h stream job))
