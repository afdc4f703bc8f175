-- ===== src/Connection/Tests.antt =====
-- A connection that sends and closes.
use sickle.Base.{◌≡◌, refl, true, List, [], ◌∷◌, ◌||◌, ok, After, arith}
use sickle.Ready
use sickle.Ready.{Ready}
use sickle.Connection.Defs.{Arrival, bytes, not_now, count, TcpConnection, new, send, handle_event}
use sickle.Connection.Close.{ClosesOnce, handle_event-ClosesOnce}
use sickle.Connection.Returns.{ends, handle_event-returns}
use sickle.Connection.Write.{IsIdle, send-lossy}

new-IsIdle : IsIdle new
new-IsIdle = record { sending_empty = refl; waiting_empty = refl; enabled = refl }

new-ClosesOnce : ClosesOnce new
new-ClosesOnce = record { closed_count = refl; deregistered_count = refl }

-- Readable and hung up.
abbrev last_words : Ready
last_words = record { bits = 9 }

abbrev arrivals : List Arrival
arrivals = bytes (7 ∷ []) ∷ bytes [] ∷ []

handle_event-ClosesOnce_example : After ClosesOnce (handle_event new last_words arrivals not_now)
handle_event-ClosesOnce_example =
    handle_event-ClosesOnce new last_words arrivals not_now new-ClosesOnce

hung_up : (Ready.is_error last_words || Ready.is_hup last_words) ≡ true
unfolding Ready.is_error Ready.is_hup
hung_up = refl

send-lossy_example :
    (c' : TcpConnection) × (send new (1 ∷ 2 ∷ 3 ∷ []) (count 2) ≡ ok (3, c'))
    × (c'.wire ≡ 1 ∷ 2 ∷ [])
    × (c'.write_buffer_sending ≡ [])
    × (c'.write_buffer_waiting ≡ [])
send-lossy_example = send-lossy new 1 (2 ∷ 3 ∷ []) 2 new-IsIdle (omega arith)

arrivals_end : ends arrivals ≡ true
unfolding ends
arrivals_end = refl

handle_event-returns_example :
    (c' : TcpConnection) × (handle_event new last_words arrivals not_now ≡ ok c')
handle_event-returns_example =
    handle_event-returns new last_words arrivals not_now refl arrivals_end
