-- ===== src/TcpServer/Defs.antt =====
-- `TcpServer` and `TcpClient` of src/net/tcp_server.rs over the selector of their event loop. What the
-- sockets and the kernel answer is given with each operation. A handler is what its methods answer.
use sickle.Base.{
  ℕ, ◌+◌, ◌%◌, Bool, true, false, Option, none, some, List, [], ◌∷◌, ◌++◌, Outcome, ok, panic,
  ◌>>=◌, unwrap, IoResult, success, failure, ErrorKind, update,
}
use sickle.Bits.{word}
use sickle.Event.{TokenType, TokenEntry, Job}
use sickle.Ready
use sickle.Ready.{Ready, readable, writable}
use sickle.PollOpt.{edge}
use sickle.Selector.{Selector}
use sickle.Connection
use sickle.Connection.{TcpConnection, Bytes, set_enabled}
use sickle.Acceptor.{Acceptor, set_accept_job}
use sickle.Acceptor
use sickle.Sockets
use sickle.Sockets.{TcpStream}

-- `on_recv` is what is left of the bytes, `on_written` what is answered at each call, and `on_error` the
-- closure round the method of that name. `attached` is what `attach_connection`, and `on_accept` of a
-- server, do to the new connection, and `opens` what they do to the selector of the event loop: a
-- handler may open further sockets on it.
pub record Handler : Type 0 where
  pub on_recv : Bytes → Bytes
  pub on_written : ℕ → Bool
  pub on_error : Job
  pub attached : TcpConnection → TcpConnection
  pub opens : Selector → Selector

-- The calls of a handler apart from those that a connection makes.
pub data Call : Type 0 where
  attach_connection : Call
  on_accept : Call
  on_connect : Call
  on_error : Call

-- A connection and its stream.
pub record Served : Type 0 where
  pub stream : TcpStream
  pub conn : TcpConnection

-- `session_alloc` is how the sessions are made, `token_id` is `SOCKET_TOKEN_ID`, and `served` lists the
-- connections, the latest last. `calls` holds the calls of the sessions, the latest first.
pub record TcpServer : Type 0 where
  pub selector : Selector
  pub acceptor : Acceptor
  pub session_alloc : Option Handler
  pub token_id : ℕ
  pub served : List Served
  pub calls : List Call

-- `TcpServer::new`
abbrev pub new : Selector → (token_id : ℕ) → TcpServer
new selector token_id = record {
  selector = selector;
  acceptor = Acceptor.new;
  session_alloc = none;
  token_id = token_id;
  served = [];
  calls = [];
}

-- `start`
unfoldable pub start : TcpServer → Handler → TcpServer
start s handler = record s { session_alloc = some handler }

-- A new connection that the handler was given, with the three jobs of the handler.
unfoldable pub wired : Handler → TcpConnection
wired h = record (h.attached Connection.new) {
  on_read = h.on_recv;
  on_writ = h.on_written;
  on_close = h.on_error;
}

-- `Ready::readable() | Ready::writable()`
unfoldable pub both : Ready
unfolding Ready.bitor
both = Ready.bitor readable writable

-- What registering a stream gives; `unwrap` panics on an error.
unfoldable pub registered :
    IoResult (Unit {0}) × TcpStream × Selector → Outcome (TcpStream × Selector)
registered (success _, s, selector) = ok (s, selector)
registered (failure e, s, selector) = panic

-- The entry of a stream. `fetch_add` wraps round.
abbrev pub socket_entry : ℕ → TokenEntry
socket_entry id = record { ttype = TokenType.socket_event; token = record { id = id } }

-- `job` is the closure that calls `handle_event` of the new connection.
unfoldable pub on_accept_connection :
    TcpServer → TcpStream → Job → (accepted : Bool) → Outcome TcpServer
unfolding wired both registered Sockets.register
on_accept_connection s stream job accepted = do
  h ← unwrap s.session_alloc
  let id = (s.token_id + 1) % word
  (stream1, selector) ←
      registered
        (Sockets.register stream (h.opens s.selector) (socket_entry id) both edge job accepted)
  ok (record s {
    selector = selector;
    token_id = id;
    served = s.served ++ (record { stream = stream1; conn = wired h } ∷ []);
    calls = on_accept ∷ attach_connection ∷ s.calls;
  })

-- `start_internal`: `read_job` calls `handle_read` of the acceptor, and `accept_job`
-- `on_accept_connection` of the server. `registers` is the answer to the listener.
unfoldable pub start_internal :
    TcpServer → (read_job accept_job : Job) → (registers : Bool) → Outcome TcpServer
unfolding Acceptor.bind set_accept_job
start_internal s read_job accept_job registers = do
  a ← Acceptor.bind s.acceptor read_job registers
  ok (record s { acceptor = set_accept_job a accept_job })

-- The streams that the acceptor hands over.
unfoldable pub accept_streams : TcpServer → List (TcpStream × Job) → Outcome TcpServer
unfolding on_accept_connection
accept_streams s [] = ok s
accept_streams s (x ∷ rest) = do s1 ← on_accept_connection s x.0 x.1 true; accept_streams s1 rest

-- What the connection job of a client leaves, up to its call of `on_connect` or `on_error`: the selector, the connection if there is one, and the
-- calls of the handler, the latest first.
pub record Client : Type 0 where
  pub selector : Selector
  pub served : Option Served
  pub calls : List Call

-- The end of the job, where the stream has no error.
unfoldable pub attach :
    Client → Handler → TcpStream → Job → (deregisters accepted : Bool) → Outcome (Bool × Client)
unfolding wired both registered set_enabled Sockets.deregister Sockets.register
attach c h stream job deregisters accepted = do
  (s1, sel1) ← registered (Sockets.deregister stream (h.opens c.selector) deregisters)
  (s2, sel2) ←
      registered (Sockets.register s1 sel1 (socket_entry stream.sys) both edge job accepted)
  ok (
    true,
    record {
      selector = sel2;
      served = some (record { stream = s2; conn = set_enabled (wired h) true });
      calls = on_connect ∷ attach_connection ∷ c.calls;
    },
  )

-- A stream that is dropped closes its descriptor, and the kernel takes it out of the epoll instance; the
-- map keeps its entry.
abbrev pub dropped : Selector → (fd : ℕ) → Selector
dropped selector fd = record selector { kernel = update selector.kernel fd none }

-- The connection job of `start_connect`, whose stream nobody else holds; `error` is what `take_error` returns.
unfoldable pub conn_job :
    Client
    → Handler
    → TcpStream
    → Job
    → (error : IoResult (Option ErrorKind)) → (deregisters accepted : Bool)
    → Outcome (Bool × Client)
unfolding attach
conn_job c h stream job (success (some e)) deregisters accepted =
    ok (
      false,
      record c { selector = dropped c.selector stream.sys; calls = Call.on_error ∷ c.calls },
    )
conn_job c h stream job (success none) deregisters accepted =
    attach c h stream job deregisters accepted
conn_job c h stream job (failure e) deregisters accepted =
    attach c h stream job deregisters accepted
