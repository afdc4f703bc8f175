-- ===== src/Connection/Write.antt =====
-- What becomes of the bytes that are sent, src/net/connection.rs.
use sickle.Base.{
  ℕ, ◌<◌, ◌≡◌, refl, ap, ◌⊎◌, true, false, [], ◌∷◌, ◌++◌, ok, arith, length, take, drop,
}
use sickle.Connection.Defs.{Written, count, Call, TcpConnection, send, Bytes, writ_calls}

take_all : (bs : Bytes) → take (length bs) bs ≡ bs
take_all [] = refl
take_all (b ∷ bs) = ap (λ (t : Bytes). b ∷ t) (take_all bs)

drop_all : (bs : Bytes) → drop (length bs) bs ≡ []
drop_all [] = refl
drop_all (b ∷ bs) = drop_all bs

-- A connection whose two write buffers are empty and that may write.
pub record IsIdle (c : TcpConnection) : Type 0 where
  pub sending_empty : c.write_buffer_sending ≡ []
  pub waiting_empty : c.write_buffer_waiting ≡ []
  pub enabled : c.write_enabled ≡ true

-- Bytes that the socket does not take at once are lost. An idle connection sends `b ∷ bs` and the socket
-- takes the first `n` of the bytes, fewer than all: `send` reports all of them as sent, the socket has
-- just the first `n`, and both write buffers are empty, so no later event writes the rest.
pub send-lossy :
    (c : TcpConnection) (b : ℕ) (bs : Bytes) (n : ℕ)
    → IsIdle c
    → 0 < length (drop n (b ∷ bs))
    → (c' : TcpConnection) × (send c (b ∷ bs) (count n) ≡ ok (length (b ∷ bs), c'))
      × (c'.wire ≡ c.wire ++ take n (b ∷ bs))
      × (c'.write_buffer_sending ≡ [])
      × (c'.write_buffer_waiting ≡ [])
unfolding send
send-lossy c b bs n idle h = (
  record c { wire = c.wire ++ take n (b ∷ bs); write_buffer_waiting = [] },
  ground arith,
  refl,
  idle.sending_empty,
  refl,
)

-- Where the socket takes all bytes, they are on the wire in order, behind those sent before, nothing is
-- left in the buffers, and the write job is called once more; while it answers `true` the connection
-- stays as it is otherwise.
pub send_lem :
    (c : TcpConnection) (b : ℕ) (bs : Bytes)
    → IsIdle c
    → c.on_writ (writ_calls c.calls) ≡ true
    → send c (b ∷ bs) (count (length (b ∷ bs)))
      ≡ ok (
        length (b ∷ bs),
        record c {
          wire = c.wire ++ (b ∷ bs);
          write_triggered = false;
          calls = Call.writ_job ∷ c.calls;
        },
      )
unfolding send
send_lem c b bs idle yes' = ground (arith, take_all (b ∷ bs), drop_all (b ∷ bs))

-- A disabled connection sends nothing and changes nothing, and neither does an empty message.
pub send-nothing :
    (c : TcpConnection) (bs : Bytes) (w : Written)
    → (length bs ≡ 0) ⊎ (c.write_enabled ≡ false)
    → send c bs w ≡ ok (0, c)
unfolding send
send-nothing c bs w h = ground arith
