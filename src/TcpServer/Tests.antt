-- ===== src/TcpServer/Tests.antt =====
-- A server that accepts two streams, and a client whose stream has an error.
use sickle.Base.{
  ℕ, ◌≡◌, refl, arith, Bool, true, false, none, some, List, [], ◌∷◌, update, ok, success, ErrorKind,
}
use sickle.Event.{Job}
use sickle.Selector
use sickle.Sockets.{TcpStream, no_selector}
use sickle.TcpServer.Defs.{Handler, TcpServer, new, start, accept_streams, Client, conn_job}
use sickle.TcpServer.Laws.{served_for, Numbered, Far, Spares, Unchanged, accept_streams-served}
use sickle.TcpServer.Client.{Failed, conn_job_lem}

abbrev echo : Handler
echo = record {
  on_recv = λ bytes. [];
  on_written = λ n. true;
  on_error = 5;
  attached = λ conn. conn;
  opens = λ sel. record sel { kernel = update sel.kernel 9 none };
}

abbrev stream_at : ℕ → TcpStream
stream_at fd = record { sys = fd; selector_id = no_selector }

abbrev server : TcpServer
unfolding start
server = start (new (Selector.new 0) 0) echo

abbrev two_streams : List (TcpStream × Job)
two_streams = (stream_at 7, 21) ∷ (stream_at 8, 22) ∷ []

accept_streams-served_example :
    (s' : TcpServer) × (accept_streams server two_streams ≡ ok s')
    × (s'.served ≡ served_for echo 1 two_streams)
    × Numbered s'.selector 0 two_streams
    × ((fd : ℕ) → Far fd two_streams → Spares echo fd → Unchanged (Selector.new 0) s'.selector fd)
unfolding start
accept_streams-served_example =
    accept_streams-served two_streams server echo refl (λ sel. refl)
      ((λ sel. (refl, ground arith)), ((λ sel. (refl, ground arith)), tt)) (refl, (refl, tt))
      ((omega arith, tt), (tt, tt)) (omega arith)

abbrev client : Client
client = record { selector = Selector.new 0; served = none; calls = [] }

abbrev connected : TcpStream
connected = record { sys = 7; selector_id = record { id = 1 } }

conn_job_lem_example :
    (b : Bool) × (c' : Client) × (conn_job client echo connected 21
        (success (some ErrorKind.other))
        true
        true
      ≡ ok (b, c'))
    × ((b ≡ false) × Failed client c' connected)
conn_job_lem_example =
    conn_job_lem client echo connected 21 (success (some ErrorKind.other)) refl refl
