-- ===== src/Registration/Laws.antt =====
-- Setting the readiness of a registration, and registering it, src/poll.rs.
use sickle.Base.{ℕ, ◌<◌, ◌≡◌, true, false, some, List, [], ◌∷◌, arith, All, if◌then◌else◌, ◌==◌}
use sickle.Bits.{bit_and}
use sickle.ReadinessState
use sickle.ReadinessState.{ReadinessState, Fields, fields}
use sickle.Ready.{Ready}
use sickle.PollOpt.{PollOpt}
use sickle.Registration.Defs.{with_readiness, readiness_loop, updated_state}

-- The word that `set_readiness` writes has the new readiness; it is queued if it was, or if the new
-- readiness meets the interest; nothing else changes.
pub with_readiness-fields :
    (s : ReadinessState) (v : Ready)
    → v.bits < 16
    → fields (with_readiness s v) ≡ record (fields s) {
      readiness = v.bits;
      queued = if bit_and v.bits (fields s).interest == 0 then (fields s).queued else true;
    }
unfolding with_readiness
with_readiness-fields s v h =
    let t = ReadinessState.set_readiness s v in
    ground (
      arith,
      ReadinessState.set_readiness-fields s v h,
      ReadinessState.set_queued-fields t,
      ReadinessState.effective_readiness-fields t,
    )

-- The word that `update` writes has the new write position, interest and options; it is queued if it
-- was, or if its readiness meets the new interest; readiness, read position and the dropped bit stay.
pub updated_state-fields :
    (s : ReadinessState) (pos : ℕ) (i : Ready) (opt : PollOpt)
    → pos < 4
    → i.bits < 16
    → opt.bits < 16
    → fields (updated_state s pos i opt) ≡ record (fields s) {
      interest = i.bits;
      poll_opt = opt.bits;
      write_pos = pos;
      queued = if bit_and (fields s).readiness i.bits == 0 then (fields s).queued else true;
    }
unfolding updated_state
updated_state-fields s pos i opt h h' h'' =
    let t1 = ReadinessState.set_token_write_pos s pos in
    let t2 = ReadinessState.set_interest t1 i in
    let t3 = ReadinessState.set_poll_opt t2 opt in
    ground (
      arith,
      ReadinessState.set_token_write_pos-fields s pos h,
      ReadinessState.set_interest-fields t1 i h',
      ReadinessState.set_poll_opt-fields t2 opt h'',
      ReadinessState.set_queued-fields t3,
      ReadinessState.effective_readiness-fields t3,
    )

-- The states that the loop of `set_readiness` reads: the first one, then what others put there.
pub last_state : ReadinessState → List ReadinessState → ReadinessState
last_state s [] = s
last_state s (v ∷ vs) = last_state v vs

abbrev pub AllLive : ReadinessState → List ReadinessState → Type 0
AllLive s fails = All (λ t. ReadinessState.is_dropped t ≡ false) (s ∷ fails)

-- However often other threads make the compare-exchange fail, the word that is written is made from
-- the state that the successful one replaces, as long as no state seen has the dropped bit.
pub readiness_loop-last :
    (s : ReadinessState) (v : Ready) (fails : List ReadinessState)
    → AllLive s fails
    → readiness_loop s v fails ≡ some (last_state s fails, with_readiness (last_state s fails) v)
unfolding readiness_loop last_state
readiness_loop-last s v [] h = rw h.0
readiness_loop-last s v (t ∷ fails) h = rw h.0 (readiness_loop-last t v fails h.1)
