-- ===== src/Poll/Defs.antt =====
-- `Poll::poll2` of src/poll.rs with the selector, the readiness queue and the awakener, and
-- `SelectorId`. A duration is its number of nanoseconds here.
use sickle.Base.{
  ℕ, ◌-◌, Bool, false, not, ◌&&◌, Option, none, some, List, [], ◌∷◌, ◌++◌, ◌==◌, leb, if◌then◌else◌,
  Outcome, ok, out_of_fuel, ◌>>=◌, IoResult, success, failure, ErrorKind, is_interrupted,
}
use sickle.Selector.{EpollEvent, Events, Selector, select, len}
use sickle.Queue
use sickle.Queue.{Ptr, Queue, prepare_for_sleep, hand_in}
use sickle.Awakener.{cleanup}

-- `selects` lists the timeouts that the calls of `select` were given, the latest last.
pub record Poll : Type 0 where
  pub selector : Selector
  pub readiness_queue : Queue
  pub selects : List (Option ℕ)

-- One `epoll_wait`: what it returned, and how long the call of `select` took.
pub record Waited : Type 0 where
  pub waited : IoResult (List EpollEvent)
  pub elapsed : ℕ

-- The timeout with which `poll2` enters its loop: the one that is given if it is zero or if the
-- queue is ready to sleep, and else zero.
unfoldable pub first_timeout : Option ℕ → Queue → Outcome (Option ℕ × Queue)
unfolding prepare_for_sleep
first_timeout none q = do
  (prepared, q1) ← prepare_for_sleep q
  ok (if prepared then none else some 0, q1)
first_timeout (some to) q =
    if to == 0
    then ok (some 0, q)
    else (do (prepared, q1) ← prepare_for_sleep q; ok (if prepared then some to else some 0, q1))

-- A call of `select`.
unfoldable pub select_once : Option ℕ → Waited → Poll → Events → IoResult Bool × Poll × Events
unfolding select
select_once timeout w p events =
    let (r, s, events1) = select p.selector events w.waited in
    (r, record p { selector = s; selects = p.selects ++ (timeout ∷ []) }, events1)

-- The loop of `poll2`: whether the awakener is to be cleaned up, or an error.
unfoldable pub select_loop :
    (interruptible : Bool)
    → Option ℕ
    → List Waited
    → Poll
    → Events
    → Outcome (IoResult Bool × Poll × Events)
unfolding select_once
select_loop interruptible timeout [] p events = out_of_fuel
select_loop interruptible timeout (w ∷ rest) p events =
    let (r, p1, events1) = select_once timeout w p events in
    elim r [
      | success notified ↦ ok (success notified, p1, events1)
      | failure e ↦
          if is_interrupted e && not interruptible
          then elim timeout [
            | none ↦ select_loop interruptible none rest p1 events1
            | some to ↦
                if leb to w.elapsed
                then ok (success false, p1, events1)
                else select_loop interruptible (some (to - w.elapsed)) rest p1 events1
          ]
          else ok (failure e, p1, events1)
    ]

-- The end of `poll2`, after its loop.
unfoldable pub finish :
    (fuel : ℕ)
    → (reads : List (IoResult ℕ)) → IoResult Bool × Poll × Events
    → Outcome (IoResult ℕ × Poll × Events)
unfolding cleanup Queue.poll
finish fuel reads (failure e, p, events) = ok (failure e, p, events)
finish fuel reads (success notified, p, events) = do
  _ ← if notified then cleanup reads else ok reads
  (q, events1) ← Queue.poll fuel p.readiness_queue events
  ok (success (len events1), record p { readiness_queue = q }, events1)

-- `poll2`. While it waits, other threads hand in the nodes of `arrived`; `reads` is what reading the
-- awakener's pipe returns.
unfoldable pub poll2 :
    (fuel : ℕ)
    → (interruptible : Bool) → Option ℕ
    → List Waited
    → (arrived : List Ptr) → (reads : List (IoResult ℕ)) → Poll
    → Events
    → Outcome (IoResult ℕ × Poll × Events)
unfolding first_timeout select_loop hand_in finish
poll2 fuel interruptible timeout waits arrived reads p events = do
  (timeout1, q1) ← first_timeout timeout p.readiness_queue
  (r, p1, events1) ←
      select_loop interruptible timeout1 waits (record p { readiness_queue = q1 }) events
  q2 ← hand_in p1.readiness_queue arrived
  finish fuel reads (r, record p1 { readiness_queue = q2 }, events1)

-- `SelectorId`: 0, or the identity of the selector that the socket is registered with.
pub record SelectorId : Type 0 where
  pub id : ℕ

unfoldable pub associate_selector : SelectorId → (selector : ℕ) → IoResult (Unit {0}) × SelectorId
associate_selector s selector =
    if not (s.id == 0) && not (s.id == selector)
    then (failure ErrorKind.other, s)
    else (success tt, record s { id = selector })
