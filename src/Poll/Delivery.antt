-- ===== src/Poll/Delivery.antt =====
-- What `poll2` of src/poll.rs delivers: the events of the selector, and those of the nodes that wait.
use sickle.Base.{
  ℕ, suc, ◌≤◌, ◌≡◌, refl, ap, subst, ◌∙◌, ◌⊎◌, inl, inr, Bool, true, false, Option, none, some,
  List, [], ◌∷◌, ◌++◌, ◌==◌, arith, All, All-parts, length, ok, After, Bool-cases, Option-cases,
  IoResult, success, if◌then◌else◌,
}
use sickle.Selector.{EpollEvent, Events, Selector, select, scan_events, len}
use sickle.Queue
use sickle.Queue.{
  Ptr, Node, Queue, prepare_for_sleep, hand_in, Distinct, IsReal, IsQueue, Has, Frames, is_nil,
  events, staying, Holds, IsFull, delivered, prepare_for_sleep-Frames, prepare_for_sleep-nil,
  prepare_for_sleep-cons, hand_in-IsQueue, poll-pass, Handed,
}
use sickle.Awakener.{cleanup}
use sickle.Poll.Defs.{Poll, Waited, first_timeout, select_loop, finish, poll2}

prepared :
    (q : Queue) (ws : List Ptr)
    → IsQueue q ws
    → (q' : Queue) × (prepare_for_sleep q ≡ ok (is_nil ws, q')) × IsQueue q' ws × Frames q q'
prepared q [] v =
    let (q', done, v', _, _) = prepare_for_sleep-nil q v in
    (
      q',
      done,
      v',
      subst (After (λ (r : Bool × Queue). Frames q r.1)) done (prepare_for_sleep-Frames q),
    )
prepared q (x ∷ ws) v =
    let (q', done, v', _, _) = prepare_for_sleep-cons q x ws v in
    (
      q',
      done,
      v',
      subst (After (λ (r : Bool × Queue). Frames q r.1)) done (prepare_for_sleep-Frames q),
    )

-- `poll2` waits only if no node does.
abbrev pub first : Option ℕ → List Ptr → Option ℕ
first timeout ws = if is_nil ws then timeout else some 0

no_wait : (to : ℕ) (ws : List Ptr) → to ≡ 0 → first (some to) ws ≡ some 0
no_wait to [] zero' = ap (λ n. some n) zero'
no_wait to (x ∷ ws) zero' = refl

first_timeout-first :
    (timeout : Option ℕ) (q : Queue) (ws : List Ptr)
    → IsQueue q ws
    → (q' : Queue) × (first_timeout timeout q ≡ ok (first timeout ws, q'))
      × IsQueue q' ws
      × Frames q q'
unfolding first_timeout
first_timeout-first none q ws v =
    let (q', done, v', frames) = prepared q ws v in (q', rw done refl, v', frames)
first_timeout-first (some to) q ws v = elim (Bool-cases (to == 0)) [
  | inl e ↦ (q, rw (e, no_wait to ws (ground (arith, e))) refl, v, λ j n has. has)
  | inr e ↦ let (q', done, v', frames) = prepared q ws v in (q', rw (e, done) refl, v', frames)
]

-- A wait that succeeds ends the loop.
select-success :
    (s : Selector) (evts : Events) (es : List EpollEvent)
    → (b : Bool) × ((select s evts (success es)).0 ≡ success b)
unfolding select
select-success s evts es =
    elim (Option-cases
      (scan_events 0 es (record { map = s.events_map; entries = []; notify = none })).notify) [
        | inl h ↦ (false, ground (arith, h))
        | inr (i, h) ↦ (true, ground (arith, h))
      ]

abbrev pub selected : Poll → Events → List EpollEvent → Selector × Events
selected p evts es = let r = select p.selector evts (success es) in (r.1, r.2)

-- `select` does not change the room for events.
pub selected-capacity :
    (p : Poll) (evts : Events) (es : List EpollEvent)
    → (selected p evts es).1.capacity ≡ evts.capacity
unfolding select
selected-capacity p evts es =
    elim (Option-cases
      (scan_events 0 es
        (record { map = p.selector.events_map; entries = []; notify = none })).notify) [
          | inl h ↦ ground (arith, h)
          | inr (i, h) ↦ ground (arith, h)
        ]

select_loop-success :
    (interruptible : Bool) (timeout : Option ℕ) (w : Waited) (rest : List Waited) (p : Poll)
    (evts : Events) (es : List EpollEvent)
    → w.waited ≡ success es
    → (b : Bool) × (select_loop interruptible timeout (w ∷ rest) p evts
        ≡ ok (
          success b,
          record p { selector = (selected p evts es).0; selects = p.selects ++ (timeout ∷ []) },
          (selected p evts es).1,
        ))
unfolding select_loop
select_loop-success interruptible timeout w rest p evts es answer =
    let (b, done) = select-success p.selector evts es in (b, ground (arith, answer, done))

finish-poll :
    (fuel : ℕ) (reads left : List (IoResult ℕ)) (b : Bool) (p : Poll) (evts evts' : Events)
    (q' : Queue)
    → cleanup reads ≡ ok left
    → Queue.poll fuel p.readiness_queue evts ≡ ok (q', evts')
    → finish fuel reads (success b, p, evts)
      ≡ ok (success (len evts'), record p { readiness_queue = q' }, evts')
unfolding finish
finish-poll fuel reads left true p evts evts' q' cleaned done = ground (arith, cleaned, done)
finish-poll fuel reads left false p evts evts' q' cleaned done = ground (arith, done)

poll2-finish :
    (fuel : ℕ) (interruptible : Bool) (timeout timeout1 : Option ℕ) (waits : List Waited)
    (arrived : List Ptr) (reads : List (IoResult ℕ)) (p p1 : Poll) (evts evts1 : Events)
    (q1 q2 : Queue) (r : IoResult Bool)
    → first_timeout timeout p.readiness_queue ≡ ok (timeout1, q1)
    → select_loop interruptible timeout1 waits (record p { readiness_queue = q1 }) evts
      ≡ ok (r, p1, evts1)
    → hand_in p1.readiness_queue arrived ≡ ok q2
    → poll2 fuel interruptible timeout waits arrived reads p evts
      ≡ finish fuel reads (r, record p1 { readiness_queue = q2 }, evts1)
unfolding poll2
poll2-finish fuel interruptible timeout timeout1 waits arrived reads p p1 evts evts1 q1 q2 r begun
      waited handed =
    ground (arith, begun, waited, handed)

module _ (c : Ptr → Node) where
  carried : (q q' : Queue) (ns : List Ptr) → Frames q q' → All (Holds c q) ns → All (Holds c q') ns
  carried q q' [] frames h = tt
  carried q q' (n ∷ ns) frames h = ((frames n (c n) h.0.0, h.0.1), carried q q' ns frames h.1)

  are_live :
      (q : Queue) (ns : List Ptr)
      → All IsReal ns
      → All (Holds c q) ns
      → All (λ n. IsReal n × ((m : Node) × Has q n m)) ns
  are_live q [] real h = tt
  are_live q (n ∷ ns) real h = ((real.0, (c n, h.0.0)), are_live q ns real.1 h.1)

  -- What `poll2` does, with what it leaves of the nodes that were handed out.
  pub poll2-pass :
      (interruptible : Bool) (timeout : Option ℕ) (w : Waited) (waits : List Waited)
      (arrived ws : List Ptr) (reads left : List (IoResult ℕ)) (p : Poll) (evts : Events)
      (es : List EpollEvent)
      → IsQueue p.readiness_queue ws
      → All (Holds c p.readiness_queue) (ws ++ arrived)
      → All IsReal arrived
      → Distinct (ws ++ arrived)
      → w.waited ≡ success es
      → cleanup reads ≡ ok left
      → (done rest : List Ptr) × (q' : Queue) × (ws ++ arrived ≡ done ++ rest)
        × ((fuel : ℕ)
            → suc (length (ws ++ arrived)) ≤ fuel
            → poll2 fuel interruptible timeout (w ∷ waits) arrived reads p evts
              ≡ ok (
                success (len (delivered (selected p evts es).1 (events c done))),
                record p {
                  selector = (selected p evts es).0;
                  readiness_queue = q';
                  selects = p.selects ++ (first timeout ws ∷ []);
                },
                delivered (selected p evts es).1 (events c done),
              ))
        × IsQueue q' (rest ++ staying c done)
        × ((rest ≡ []) ⊎ IsFull (delivered (selected p evts es).1 (events c done)))
        × All (Handed c q') done
  poll2-pass interruptible timeout w waits arrived ws reads left p evts es v holds real d answer
        cleaned =
      let (q1, begun, v1, frames1) = first_timeout-first timeout p.readiness_queue ws v in
      let p1 : Poll = record p { readiness_queue = q1 } in
      let (b, waited) =
        select_loop-success interruptible (first timeout ws) w waits p1 evts es answer in
      let holds1 = carried p.readiness_queue q1 (ws ++ arrived) frames1 holds in
      let (q2, handed, v2, frames2) =
        hand_in-IsQueue q1 ws arrived v1
          (are_live q1 arrived real (All-parts (Holds c q1) ws arrived holds1).1) d in
      let (done, rest, q', split, runs, v', room, _, out) =
        poll-pass c q2 (ws ++ arrived) (selected p evts es).1 v2
          (carried q1 q2 (ws ++ arrived) frames2 holds1) in
      (
        done,
        rest,
        q',
        split,
        λ fuel h.
            poll2-finish fuel interruptible timeout (first timeout ws) (w ∷ waits) arrived reads p _
              evts (selected p evts es).1 q1 q2 (success b) begun waited handed
            ∙ finish-poll fuel reads left b _ (selected p evts es).1 _ q' cleaned (runs fuel h),
        v',
        room,
        out,
      )

  -- Where the first epoll_wait of poll2 succeeds and the awakener's pipe is read to its end, poll2
  -- with more fuel than nodes returns. It has called select once, with the timeout given if no node
  -- waited in the readiness queue before, and with zero otherwise. The events are those that select
  -- gives and behind them those of a first part of the nodes, first the ones that waited and then
  -- the ones that other threads handed in meanwhile, which is all of them unless the events are
  -- full; the number of events is the result. Behind the other nodes the queue then holds the ready
  -- level-triggered ones of that part. The nodes are distinct, marked as queued, and have their
  -- write position at one of the three slots.
  pub poll2-events :
      (interruptible : Bool) (timeout : Option ℕ) (w : Waited) (waits : List Waited)
      (arrived ws : List Ptr) (reads left : List (IoResult ℕ)) (p : Poll) (evts : Events)
      (es : List EpollEvent)
      → IsQueue p.readiness_queue ws
      → All (Holds c p.readiness_queue) (ws ++ arrived)
      → All IsReal arrived
      → Distinct (ws ++ arrived)
      → w.waited ≡ success es
      → cleanup reads ≡ ok left
      → (done rest : List Ptr) × (q' : Queue) × (ws ++ arrived ≡ done ++ rest)
        × ((fuel : ℕ)
            → suc (length (ws ++ arrived)) ≤ fuel
            → poll2 fuel interruptible timeout (w ∷ waits) arrived reads p evts
              ≡ ok (
                success (len (delivered (selected p evts es).1 (events c done))),
                record p {
                  selector = (selected p evts es).0;
                  readiness_queue = q';
                  selects = p.selects ++ (first timeout ws ∷ []);
                },
                delivered (selected p evts es).1 (events c done),
              ))
        × IsQueue q' (rest ++ staying c done)
        × ((rest ≡ []) ⊎ IsFull (delivered (selected p evts es).1 (events c done)))
  poll2-events interruptible timeout w waits arrived ws reads left p evts es v holds real d answer
        cleaned =
      let (done, rest, q', split, runs, v', room, _) =
        poll2-pass interruptible timeout w waits arrived ws reads left p evts es v holds real d
          answer cleaned in
      (done, rest, q', split, runs, v', room)
