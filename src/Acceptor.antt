-- ===== src/Acceptor.antt =====
-- `Acceptor` of src/net/acceptor.rs. What `accept` returns, and whether the event loop accepts to register
-- the listener, is given with each operation. A stream and an address are numbers.
mod Tests
use sickle.Base.{
  ℕ, ◌≡◌, refl, Bool, true, false, List, [], ◌∷◌, ◌++◌, All, Outcome, ok, panic, out_of_fuel,
  if◌then◌else◌, arith,
}
use sickle.Event.{Job, noop, TokenType, TokenEntry}
use sickle.Ready.{Ready, readable}
use sickle.PollOpt.{PollOpt, edge}

-- What `accept` returns: a stream with its address, or an error of the kind `Interrupted`, `WouldBlock`
-- or any other.
pub data Accepted : Type 0 where
  stream : (id addr : ℕ) → Accepted
  interrupted : Accepted
  would_block : Accepted
  failed : Accepted

-- What the acceptor calls outside of itself: its job with a stream, and the event loop.
pub data Call : Type 0 where
  accepted : Job → (id addr : ℕ) → Call
  register : TokenEntry → Ready → PollOpt → Job → Call

-- `calls` holds the calls so far, the latest first.
pub record Acceptor : Type 0 where
  pub is_listening : Bool
  pub acceptor_job : Job
  pub calls : List Call

-- `Acceptor::new`; the default job only prints.
abbrev pub new : Acceptor
new = record { is_listening = false; acceptor_job = noop; calls = [] }

unfoldable pub set_accept_job : Acceptor → Job → Acceptor
set_accept_job a job = record a { acceptor_job = job }

-- The loop of `handle_read`. A list that ends before the loop does says too little.
unfoldable pub handle_read : Acceptor → List Accepted → Outcome Acceptor
handle_read a [] = out_of_fuel
handle_read a (stream id addr ∷ rest) =
    handle_read (record a { calls = accepted a.acceptor_job id addr ∷ a.calls }) rest
handle_read a (interrupted ∷ rest) = handle_read a rest
handle_read a (would_block ∷ rest) = ok a
handle_read a (failed ∷ rest) = ok a

abbrev pub listener_entry : TokenEntry
listener_entry = record { ttype = TokenType.accept_event; token = record { id = 0 } }

-- `bind`, where `registers` is what the event loop answers.
unfoldable pub bind : Acceptor → Job → (registers : Bool) → Outcome Acceptor
bind a job registers =
    let a1 : Acceptor = record a { calls = register listener_entry readable edge job ∷ a.calls } in
    if registers then ok (record a1 { is_listening = true }) else panic

-- The calls for the streams of the answers, the latest first, before those in `before`.
abbrev pub calls_of : Job → List Accepted → List Call → List Call
calls_of job [] before = before
calls_of job (stream id addr ∷ rest) before = calls_of job rest (accepted job id addr ∷ before)
calls_of job (interrupted ∷ rest) before = calls_of job rest before
calls_of job (would_block ∷ rest) before = calls_of job rest before
calls_of job (failed ∷ rest) before = calls_of job rest before

abbrev pub IsGoing : Accepted → Type 0
IsGoing (stream id addr) = Unit
IsGoing interrupted = Unit
IsGoing would_block = ⊥
IsGoing failed = ⊥

abbrev pub IsLast : Accepted → Type 0
IsLast (stream id addr) = ⊥
IsLast interrupted = ⊥
IsLast would_block = Unit
IsLast failed = Unit

-- Where accept gives any streams and interruptions and then another error, handle_read returns, has
-- run the job once for each stream, in order, whatever interruptions came between, and takes nothing
-- after that error.
pub handle_read-calls_of :
    (a : Acceptor) (going rest : List Accepted) (last : Accepted)
    → All IsGoing going
    → IsLast last
    → handle_read a (going ++ (last ∷ rest))
      ≡ ok (record a { calls = calls_of a.acceptor_job going a.calls })
unfolding handle_read
handle_read-calls_of a [] rest (stream id addr) all end = absurd end
handle_read-calls_of a [] rest interrupted all end = absurd end
handle_read-calls_of a [] rest would_block all end = refl
handle_read-calls_of a [] rest failed all end = refl
handle_read-calls_of a (stream id addr ∷ going) rest last all end =
    handle_read-calls_of (record a { calls = accepted a.acceptor_job id addr ∷ a.calls }) going rest
      last all.1 end
handle_read-calls_of a (interrupted ∷ going) rest last all end =
    handle_read-calls_of a going rest last all.1 end
handle_read-calls_of a (would_block ∷ going) rest last all end = absurd all.0
handle_read-calls_of a (failed ∷ going) rest last all end = absurd all.0
