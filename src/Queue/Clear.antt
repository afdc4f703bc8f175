-- ===== src/Queue/Clear.antt =====
-- Where the readiness queue of src/poll.rs hands out nothing: at the mark, and when the sleep marker is
-- cleared.
use sickle.Base.{◌≡◌, ◌≢◌, refl, inl, inr, some, List, [], ◌∷◌, update, arith, ok, ◌∙◌}
use sickle.Queue.Defs.{
  Ptr, null, end_marker, sleep_marker, Node, Queue, empty, dequeue_node, take_tail,
  clear_sleep_marker, set_next,
}
use sickle.Queue.Links.{Linked-update, Linked-head}
use sickle.Queue.Fifo.{marked, plain, IsReal, IsQueue, real-ne, Live-update}
use sickle.Queue.Dequeue.{
  first_of, Linked-first, dequeue_marked, dequeue_plain, woken_up, woken_up-IsQueue, Kept,
}

take_until : (q : Queue) (p next : Ptr) → take_tail q p next p ≡ ok (empty, q)
unfolding take_tail
take_until q p next = ground arith

-- When the first node is `until`, nothing is handed out and the queue keeps its nodes.
pub dequeue_node-until :
    (q : Queue) (p : Ptr) (ns : List Ptr)
    → IsQueue q (p ∷ ns)
    → (q' : Queue) × (dequeue_node q p ≡ ok (empty, q')) × IsQueue q' (p ∷ ns)
dequeue_node-until q p ns v = elim v.shape [
  | marked m l ↦
      let q1 : Queue = record q { tail_readiness = p } in
      (
        q1,
        dequeue_marked q p p ns (ground arith) v.real.0 l.0 (Linked-first q p ns l.1)
            ∙ take_until q1 p (first_of ns),
        record {
          shape = plain ns refl l.1;
          real = v.real;
          distinct = v.distinct;
          end_live = v.end_live;
          sleep_live = v.sleep_live;
        },
      )
  | plain rest e l ↦
      let first : p ≡ q.tail_readiness = cc in
      let others : ns ≡ rest = cc in
      let large : IsReal p = v.real.0 in
      (
        q,
        rw first (
            dequeue_plain q q.tail_readiness (first_of rest) (ground (arith, first, large))
              (Linked-first q q.tail_readiness rest l)
            ∙ take_until q q.tail_readiness (first_of rest)),
        v,
      )
]

clear_awake : (q : Queue) → q.tail_readiness ≢ sleep_marker → clear_sleep_marker q ≡ ok q
unfolding clear_sleep_marker
clear_awake q m = ground arith

clear_asleep :
    (q : Queue) (n : Node)
    → q.tail_readiness ≡ sleep_marker
    → q.head_readiness ≡ sleep_marker
    → q.nodes end_marker ≡ some n
    → clear_sleep_marker q ≡ ok (woken_up q n)
unfolding clear_sleep_marker set_next woken_up
clear_asleep q n m h live = ground arith

-- The end marker made to lead nowhere, while nodes wait behind the sleep marker.
clear_behind :
    (q : Queue) (n : Node)
    → q.tail_readiness ≡ sleep_marker
    → q.head_readiness ≢ sleep_marker
    → q.nodes end_marker ≡ some n
    → clear_sleep_marker q
      ≡ ok (record q {
        nodes = update q.nodes end_marker (some (record n { next_readiness = null }));
      })
unfolding clear_sleep_marker set_next
clear_behind q n m h live = ground arith

clear_sleep_marker-cons :
    (q : Queue) (p : Ptr) (ns : List Ptr)
    → IsQueue q (p ∷ ns)
    → (q' : Queue) × (clear_sleep_marker q ≡ ok q') × IsQueue q' (p ∷ ns)
clear_sleep_marker-cons q p ns v = elim v.shape [
  | plain rest e l ↦
      let first : p ≡ q.tail_readiness = cc in
      let large : IsReal p = v.real.0 in (q, clear_awake q (ground (arith, first, large)), v)
  | marked (inl m) l ↦ (q, clear_awake q (ground (arith, m)), v)
  | marked (inr m) l ↦
      let (n, live) = v.end_live in
      let n' : Node = record n { next_readiness = null } in
      let q' : Queue = record q { nodes = update q.nodes end_marker (some n') } in
      let large = Linked-head IsReal q.nodes q.head_readiness p ns l.1 v.real.0 v.real.1 in
      let kept : Kept q q' = λ j h. Live-update q q' end_marker n' j refl h in
      (
        q',
        clear_behind q n m (ground (arith, large)) live,
        record {
          shape = marked (inr m) (
              Linked-update q.nodes q.head_readiness q.tail_readiness (p ∷ ns) end_marker (some n')
                (ground arith) (real-ne end_marker (p ∷ ns) (ground arith) v.real) l);
          real = v.real;
          distinct = v.distinct;
          end_live = kept end_marker v.end_live;
          sleep_live = kept sleep_marker v.sleep_live;
        },
      )
]

-- `clear_sleep_marker` keeps the nodes.
pub clear_sleep_marker-IsQueue :
    (q : Queue) (ns : List Ptr)
    → IsQueue q ns
    → (q' : Queue) × (clear_sleep_marker q ≡ ok q') × IsQueue q' ns
clear_sleep_marker-IsQueue q (p ∷ ns) v = clear_sleep_marker-cons q p ns v
clear_sleep_marker-IsQueue q [] v = elim v.shape [
  | plain rest e l ↦ absurd (cc)
  | marked (inl m) l ↦ (q, clear_awake q (ground (arith, m)), v)
  | marked (inr m) l ↦
      let (n, live) = v.end_live in
      (
        woken_up q n,
        clear_asleep q n m (ground (arith, m, l.1)) live,
        (woken_up-IsQueue q n live v).0,
      )
]
