-- ===== src/Sockets/Laws.antt =====
-- A socket belongs to one selector, src/net/tcp.rs.
use sickle.Base.{
  ℕ, ◌≡◌, ◌≢◌, refl, sym, ◌∙◌, Bool, Bool-cases, inl, inr, List, [], ◌∷◌, ◌==◌, not, ◌&&◌, arith,
  IoResult, success, failure, ErrorKind, update,
}
use sickle.Event.{TokenEntry, Job}
use sickle.Ready.{Ready}
use sickle.PollOpt.{PollOpt}
use sickle.Selector.{Selector}
use sickle.Poll.{SelectorId, associate_selector}
use sickle.Sockets.Defs.{TcpStream, try_clone, register, reregister, deregister}

-- A call on a stream with the selector at an index; `cloned` goes on with the clone.
pub data Call : Type 0 where
  registers : ℕ → TokenEntry → Ready → PollOpt → Job → (accepted : Bool) → Call
  reregisters : ℕ → TokenEntry → Ready → PollOpt → (accepted : Bool) → Call
  deregisters : ℕ → (accepted : Bool) → Call
  cloned : (dup : IoResult ℕ) → Call

-- The selectors and the stream.
pub record World : Type 0 where
  pub selectors : ℕ → Selector
  pub stream : TcpStream

abbrev put : World → ℕ → IoResult (Unit {0}) × TcpStream × Selector → World
put w k r = record { selectors = update w.selectors k r.2; stream = r.1 }

or_same : TcpStream → IoResult TcpStream → TcpStream
or_same s (success s') = s'
or_same s (failure e) = s

unfoldable pub perform : World → Call → World
unfolding register reregister deregister try_clone or_same
perform w (registers k token interest opts job accepted) =
    put w k (register w.stream (w.selectors k) token interest opts job accepted)
perform w (reregisters k token interest opts accepted) =
    put w k (reregister w.stream (w.selectors k) token interest opts accepted)
perform w (deregisters k accepted) = put w k (deregister w.stream (w.selectors k) accepted)
perform w (cloned dup) = record w { stream = or_same w.stream (try_clone w.stream dup) }

unfoldable pub run : World → List Call → World
unfolding perform
run w [] = w
run w (c ∷ cs) = run (perform w c) cs

associate_keeps : (s : SelectorId) (k : ℕ) → s.id ≢ 0 → (associate_selector s k).1.id ≡ s.id
unfolding associate_selector
associate_keeps s k set = elim (Bool-cases (s.id == k)) [
  | inl e ↦ ground (arith, e)
  | inr e ↦ ground (arith, e)
]

associate_other :
    (s : SelectorId) (k : ℕ)
    → s.id ≢ 0
    → s.id ≢ k
    → associate_selector s k ≡ (failure ErrorKind.other, s)
unfolding associate_selector
associate_other s k set other = ground arith

-- The stream keeps the selector that it is for.
abbrev id_of : TcpStream → ℕ
id_of s = s.selector_id.id

register_id :
    (s : TcpStream) (sel : Selector) (token : TokenEntry) (interest : Ready) (opts : PollOpt)
    (job : Job) (accepted : Bool)
    → id_of (register s sel token interest opts job accepted).1
      ≡ (associate_selector s.selector_id sel.id).1.id
unfolding register
register_id s sel token interest opts job accepted =
    elim (Bool-cases (not (s.selector_id.id == 0) && not (s.selector_id.id == sel.id))) [
      | inl e ↦ ground (arith, e)
      | inr e ↦ ground (arith, e)
    ]

clone_id : (s : TcpStream) (dup : IoResult ℕ) → id_of (or_same s (try_clone s dup)) ≡ id_of s
unfolding or_same try_clone
clone_id s (success fd) = refl
clone_id s (failure e) = refl

perform_id :
    (w : World) (c : Call) → id_of w.stream ≢ 0 → id_of (perform w c).stream ≡ id_of w.stream
unfolding perform
perform_id w (registers k token interest opts job accepted) set =
    register_id w.stream (w.selectors k) token interest opts job accepted
    ∙ associate_keeps w.stream.selector_id (w.selectors k).id set
perform_id w (reregisters k token interest opts accepted) set = refl
perform_id w (deregisters k accepted) set = refl
perform_id w (cloned dup) set = clone_id w.stream dup

run_id :
    (w : World) (cs : List Call) → id_of w.stream ≢ 0 → id_of (run w cs).stream ≡ id_of w.stream
unfolding run
run_id w [] set = refl
run_id w (c ∷ cs) set = let one = perform_id w c set in run_id (perform w c) cs (rw one set) ∙ one

set_by_register :
    (s : TcpStream) (sel : Selector) (token : TokenEntry) (interest : Ready) (opts : PollOpt)
    (job : Job) (accepted : Bool)
    → (register s sel token interest opts job accepted).0 ≡ success tt
    → id_of (register s sel token interest opts job accepted).1 ≡ sel.id
unfolding register associate_selector
set_by_register s sel token interest opts job accepted done =
    elim (Bool-cases (not (s.selector_id.id == 0) && not (s.selector_id.id == sel.id))) [
      | inl e ↦ ground (arith, e, done)
      | inr e ↦ ground (arith, e)
    ]

refused_by :
    (s : TcpStream) (sel : Selector) (token : TokenEntry) (interest : Ready) (opts : PollOpt)
    (job : Job) (accepted : Bool)
    → id_of s ≢ 0
    → id_of s ≢ sel.id
    → register s sel token interest opts job accepted ≡ (failure ErrorKind.other, s, sel)
unfolding register
refused_by s sel token interest opts job accepted set other =
    ground (arith, associate_other s.selector_id sel.id set other)

-- A stream belongs to one selector: once a register on a selector with an identity other than 0 has
-- succeeded, then after any calls of register, reregister, deregister and try_clone with any
-- answers of the system, where a successful try_clone goes on with the clone, a register on a
-- selector with another identity fails and changes neither the stream nor that selector.
pub register-belongs :
    (w : World) (a b : ℕ) (cs : List Call) (token token' : TokenEntry) (interest interest' : Ready)
    (opts opts' : PollOpt) (job job' : Job) (accepted accepted' : Bool)
    → (w.selectors a).id ≢ 0
    → (register w.stream (w.selectors a) token interest opts job accepted).0 ≡ success tt
    → ((run (perform w (registers a token interest opts job accepted)) cs).selectors b).id
      ≢ (w.selectors a).id
    → register
        (run (perform w (registers a token interest opts job accepted)) cs).stream
        ((run (perform w (registers a token interest opts job accepted)) cs).selectors b)
        token'
        interest'
        opts'
        job'
        accepted'
      ≡ (
        failure ErrorKind.other,
        (run (perform w (registers a token interest opts job accepted)) cs).stream,
        (run (perform w (registers a token interest opts job accepted)) cs).selectors b,
      )
unfolding perform
register-belongs w a b cs token token' interest interest' opts opts' job job' accepted accepted'
      real done other =
    let w1 = perform w (registers a token interest opts job accepted) in
    let own = set_by_register w.stream (w.selectors a) token interest opts job accepted done in
    let set : id_of w1.stream ≢ 0 = rw own real in
    let kept = run_id w1 cs set in
    refused_by (run w1 cs).stream ((run w1 cs).selectors b) token' interest' opts' job' accepted'
      (rw kept set) (λ e. other (sym e ∙ kept ∙ own))
