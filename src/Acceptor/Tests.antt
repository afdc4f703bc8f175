-- ===== src/Acceptor/Tests.antt =====
-- Runs of an acceptor.
use sickle.Base.{◌≡◌, true, [], ◌∷◌, ok}
use sickle.Acceptor.{
  stream, interrupted, would_block, accepted, Acceptor, handle_read, handle_read-calls_of,
}

abbrev listening : Acceptor
listening = record { is_listening = true; acceptor_job = 4; calls = [] }

handle_read-calls_of_example :
    handle_read listening (stream 7 1 ∷ interrupted ∷ stream 8 2 ∷ would_block ∷ [])
    ≡ ok (record listening { calls = accepted 4 8 2 ∷ accepted 4 7 1 ∷ [] })
unfolding handle_read
handle_read-calls_of_example =
    handle_read-calls_of listening (stream 7 1 ∷ interrupted ∷ stream 8 2 ∷ []) [] would_block
      (tt, (tt, (tt, tt))) tt
