-- ===== src/Poll/Wait.antt =====
-- How long `poll2` of src/poll.rs waits.
use sickle.Base.{
  ℕ, suc, ◌+◌, ◌-◌, ◌<◌, ◌≤◌, ◌≡◌, refl, ◌∙◌, inl, inr, Bool, false, Option, some, List, [], ◌∷◌,
  ◌++◌, append_assoc, leb, arith, length, take, Outcome, ok, Bool-cases, IoResult, success, failure,
  is_interrupted, not, ◌&&◌, if◌then◌else◌,
}
use sickle.Selector.{Events}
use sickle.Poll.Defs.{Poll, Waited, select_once, select_loop}

abbrev pub total : List Waited → ℕ
total [] = 0
total (w ∷ ws) = w.elapsed + total ws

-- What is left of a timeout at each of the calls.
abbrev pub lefts : ℕ → List Waited → List (Option ℕ)
lefts to [] = []
lefts to (w ∷ ws) = some to ∷ lefts (to - w.elapsed) ws

select_once-selects :
    (timeout : Option ℕ) (w : Waited) (p : Poll) (events : Events)
    → ((select_once timeout w p events).1.selects ≡ p.selects ++ timeout ∷ [])
      × ((select_once timeout w p events).1.readiness_queue ≡ p.readiness_queue)
unfolding select_once
select_once-selects timeout w p events = (refl, refl)

abbrev Ends : ℕ → List Waited → Poll → Outcome (IoResult Bool × Poll × Events) → Type 0
Ends to waits p out =
    (n : ℕ) × (r : IoResult Bool) × (p' : Poll) × (events' : Events) × (out ≡ ok (r, p', events'))
    × (p'.selects ≡ p.selects ++ lefts to (take n waits))
    × (p'.readiness_queue ≡ p.readiness_queue)

-- One call was enough.
Ends-one :
    (to : ℕ) (w : Waited) (rest : List Waited) (p p1 : Poll) (r : IoResult Bool) (events1 : Events)
    → (p1.selects ≡ p.selects ++ some to ∷ []) × (p1.readiness_queue ≡ p.readiness_queue)
    → Ends to (w ∷ rest) p (ok (r, p1, events1))
Ends-one to w rest p p1 r events1 same = (1, r, p1, events1, refl, same.0, same.1)

-- One call more.
Ends-more :
    (to : ℕ) (w : Waited) (rest : List Waited) (p p1 : Poll)
    (out : Outcome (IoResult Bool × Poll × Events))
    → (p1.selects ≡ p.selects ++ some to ∷ []) × (p1.readiness_queue ≡ p.readiness_queue)
    → Ends (to - w.elapsed) rest p1 out
    → Ends to (w ∷ rest) p out
Ends-more to w rest p p1 out same (n, r, p', events', done, selects, queue) = (
  suc n,
  r,
  p',
  events',
  done,
  selects
      ∙ rw same.0 (append_assoc p.selects (some to ∷ []) (lefts (to - w.elapsed) (take n rest))),
  queue ∙ same.1,
)

-- What the loop does with the answer of `select`.
after_select :
    (interruptible : Bool) (to : ℕ) (w : Waited) (rest : List Waited) (p p1 : Poll)
    (r : IoResult Bool) (events1 : Events)
    → (p1.selects ≡ p.selects ++ some to ∷ []) × (p1.readiness_queue ≡ p.readiness_queue)
    → (w.elapsed < to
        → Ends
            (to - w.elapsed)
            rest
            p1
            (select_loop interruptible (some (to - w.elapsed)) rest p1 events1))
    → Ends to (w ∷ rest) p (elim r [
      | success notified ↦ ok (success notified, p1, events1)
      | failure e ↦
          if is_interrupted e && not interruptible
          then (if leb to w.elapsed
              then ok (success false, p1, events1)
              else select_loop interruptible (some (to - w.elapsed)) rest p1 events1)
          else ok (failure e, p1, events1)
    ])
after_select interruptible to w rest p p1 (success notified) events1 same again =
    Ends-one to w rest p p1 (success notified) events1 same
after_select interruptible to w rest p p1 (failure e) events1 same again =
    elim (Bool-cases (is_interrupted e && not interruptible)) [
      | inr h ↦ rw h (Ends-one to w rest p p1 (failure e) events1 same)
      | inl h ↦ elim (Bool-cases (leb to w.elapsed)) [
        | inl g ↦ rw (h, g) (Ends-one to w rest p p1 (success false) events1 same)
        | inr g ↦ rw (h, g) (Ends-more to w rest p p1 _ same (again (ground (arith, g))))
      ]
    ]

longer : (waits : List Waited) → 0 < total waits → 0 < length waits
longer [] h = absurd (omega arith)
longer (w ∷ waits) h = omega arith

-- Interrupted waits do not prolong a poll: if the waits of the loop in poll2, of which there is at
-- least one, last together at least as long as the timeout, the loop has ended within them, with a
-- result. At each call select was given what the waits before had left of the timeout, and the
-- readiness queue is as before.
pub select_loop-lefts :
    (interruptible : Bool) (to : ℕ) (waits : List Waited) (p : Poll) (events : Events)
    → 0 < length waits
    → to ≤ total waits
    → (n : ℕ) × (r : IoResult Bool) × (p' : Poll) × (events' : Events) × (select_loop interruptible
          (some to)
          waits
          p
          events
        ≡ ok (r, p', events'))
      × (p'.selects ≡ p.selects ++ lefts to (take n waits))
      × (p'.readiness_queue ≡ p.readiness_queue)
unfolding select_loop
select_loop-lefts interruptible to [] p events some_wait long = absurd (omega arith)
select_loop-lefts interruptible to (w ∷ waits) p events some_wait long =
    let p1 = (select_once (some to) w p events).1 in
    let events1 = (select_once (some to) w p events).2 in
    after_select interruptible to w waits p p1 (select_once (some to) w p events).0 events1
      (select_once-selects (some to) w p events)
      (λ early.
        select_loop-lefts interruptible (to - w.elapsed) waits p1 events1
          (longer waits (omega (arith, early, long))) (omega (arith, early, long)))
