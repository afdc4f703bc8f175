-- ===== src/Queue/Sleep.antt =====
-- Whether the consumer of the readiness queue of src/poll.rs may sleep.
use sickle.Base.{
  ◌<◌, ◌≡◌, ◌≢◌, refl, inl, inr, Bool, true, false, some, List, [], ◌∷◌, ◌==◌, All, update, arith,
  ok,
}
use sickle.Queue.Defs.{
  Ptr, null, end_marker, sleep_marker, closed_marker, Node, Queue, set_next, prepare_for_sleep,
}
use sickle.Queue.Links.{Linked, Linked-update, Linked-head}
use sickle.Queue.Fifo.{marked, plain, IsReal, IsQueue, Live-update, real-ne}
use sickle.Queue.Dequeue.{Kept}

abbrev pub is_nil : List Ptr → Bool
is_nil [] = true
is_nil (x ∷ xs) = false

-- The queue after the exchange of the end marker by the sleep marker at its head.
slept : Queue → Node → Queue
slept q n = record q {
  nodes = update q.nodes sleep_marker (some (record n { next_readiness = null }));
  head_readiness = sleep_marker;
  tail_readiness = sleep_marker;
}

prepare-slept :
    (q : Queue) (n : Node)
    → q.tail_readiness ≡ end_marker
    → q.head_readiness ≡ q.tail_readiness
    → q.nodes sleep_marker ≡ some n
    → prepare_for_sleep q ≡ ok (true, slept q n)
unfolding prepare_for_sleep set_next slept
prepare-slept q n m h live = ground arith

prepare-asleep :
    (q : Queue)
    → q.tail_readiness ≡ sleep_marker
    → prepare_for_sleep q ≡ ok (q.head_readiness == sleep_marker, q)
unfolding prepare_for_sleep
prepare-asleep q m = ground arith

-- An empty queue lets the consumer sleep, and then has the sleep marker at both ends.
pub prepare_for_sleep-nil :
    (q : Queue)
    → IsQueue q []
    → (q' : Queue) × (prepare_for_sleep q ≡ ok (true, q'))
      × IsQueue q' []
      × Kept q q'
      × (q'.tail_readiness ≡ sleep_marker)
unfolding slept
prepare_for_sleep-nil q v = elim v.shape [
  | plain rest e l ↦ absurd (cc)
  | marked (inr m) l ↦ (q, ground (arith, prepare-asleep q m, l.1), v, λ j live. live, m)
  | marked (inl m) l ↦
      let (n, live) = v.sleep_live in
      let n' : Node = record n { next_readiness = null } in
      let kept : Kept q (slept q n) = λ j l. Live-update q (slept q n) sleep_marker n' j refl l in
      (
        slept q n,
        prepare-slept q n m l.1 live,
        record {
          shape = marked (inr refl) (record { node = n'; live = ground arith; leads = refl }, refl);
          real = tt;
          distinct = tt;
          end_live = kept end_marker v.end_live;
          sleep_live = kept sleep_marker v.sleep_live;
        },
        kept,
        refl,
      )
]

-- The sleep marker made to lead nowhere.
cleared : Queue → Node → Queue
cleared q n = record q {
  nodes = update q.nodes sleep_marker (some (record n { next_readiness = null }));
}

prepare-cleared :
    (q : Queue) (n : Node)
    → q.tail_readiness ≡ end_marker
    → q.head_readiness ≢ end_marker
    → q.nodes sleep_marker ≡ some n
    → prepare_for_sleep q ≡ ok (false, cleared q n)
unfolding prepare_for_sleep set_next cleared
prepare-cleared q n m h live = ground arith

prepare-plain :
    (q : Queue)
    → q.tail_readiness ≢ sleep_marker
    → q.tail_readiness ≢ end_marker
    → prepare_for_sleep q ≡ ok (false, q)
unfolding prepare_for_sleep
prepare-plain q m h = ground arith

-- The head of a chain that has nodes is no marker.
head-ne :
    (q : Queue) (m p : Ptr) (ns : List Ptr)
    → m < closed_marker
    → All IsReal (p ∷ ns)
    → Linked q.nodes q.head_readiness q.tail_readiness (p ∷ ns)
    → q.head_readiness ≢ m
head-ne q m p ns small real l =
    let large = Linked-head IsReal q.nodes q.head_readiness p ns l.1 real.0 real.1 in
    λ e. omega (arith, large, e)

-- While nodes wait, the consumer may not sleep, and the queue is as before.
pub prepare_for_sleep-cons :
    (q : Queue) (p : Ptr) (ns : List Ptr)
    → IsQueue q (p ∷ ns)
    → (q' : Queue) × (prepare_for_sleep q ≡ ok (false, q'))
      × IsQueue q' (p ∷ ns)
      × Kept q q'
      × (q'.tail_readiness ≡ q.tail_readiness)
unfolding cleared
prepare_for_sleep-cons q p ns v = elim v.shape [
  | plain rest e l ↦
      let first : p ≡ q.tail_readiness = cc in
      (
        q,
        prepare-plain q (ground (arith, v.real.0)) (ground (arith, v.real.0)),
        v,
        λ j live. live,
        refl,
      )
  | marked (inr m) l ↦ (
    q,
    ground (arith, prepare-asleep q m, head-ne q sleep_marker p ns (omega arith) v.real l),
    v,
    λ j live. live,
    refl,
  )
  | marked (inl m) l ↦
      let (n, live) = v.sleep_live in
      let n' : Node = record n { next_readiness = null } in
      let kept : Kept q (cleared q n) =
        λ j l. Live-update q (cleared q n) sleep_marker n' j refl l in
      (
        cleared q n,
        prepare-cleared q n m (head-ne q end_marker p ns (omega arith) v.real l) live,
        record {
          shape = marked (inl m) (
              Linked-update q.nodes q.head_readiness q.tail_readiness (p ∷ ns) sleep_marker
                (some n') (ground arith) (real-ne sleep_marker (p ∷ ns) (ground arith) v.real) l);
          real = v.real;
          distinct = v.distinct;
          end_live = kept end_marker v.end_live;
          sleep_live = kept sleep_marker v.sleep_live;
        },
        kept,
        refl,
      )
]
