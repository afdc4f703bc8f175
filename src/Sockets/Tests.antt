-- ===== src/Sockets/Tests.antt =====
-- A stream that is registered, deregistered and cloned, and a connection that is in progress.
use sickle.Base.{◌≡◌, refl, arith, true, List, [], ◌∷◌, success, failure, ErrorKind}
use sickle.Event.{TokenType, TokenEntry}
use sickle.Ready.{readable}
use sickle.PollOpt.{edge}
use sickle.Selector
use sickle.Sockets.Defs.{no_selector, in_progress, connect, set_nonblock, minus_one, register}
use sickle.Sockets.Laws.{
  Call, registers, deregisters, cloned, World, perform, run, register-belongs,
}

abbrev entry : TokenEntry
entry = record { ttype = TokenType.socket_event; token = record { id = 1 } }

abbrev two_selectors : World
two_selectors = record {
  selectors = λ k. Selector.new k;
  stream = record { sys = 7; selector_id = no_selector };
}

abbrev moves : List Call
moves = deregisters 0 true ∷ cloned (success 8) ∷ []

abbrev moved : World
moved = run (perform two_selectors (registers 0 entry readable edge 5 true)) moves

accepted_first :
    (register two_selectors.stream (Selector.new 0) entry readable edge 5 true).0 ≡ success tt
unfolding register
accepted_first = refl

register-belongs_example :
    register moved.stream (moved.selectors 1) entry readable edge 5 true
    ≡ (failure ErrorKind.other, moved.stream, moved.selectors 1)
unfolding run
register-belongs_example =
    register-belongs two_selectors 0 1 moves entry entry readable readable edge edge 5 5 true true
      (omega arith) accepted_first (omega arith)

connecting :
    connect (success 7) (success tt) (success tt) in_progress
    ≡ success (record { sys = 7; selector_id = no_selector })
unfolding connect
connecting = refl

-- The error of the first call is stored as the flags.
flags_lost : set_nonblock minus_one (λ flags. flags) ≡ failure ErrorKind.other
unfolding set_nonblock
flags_lost = refl
