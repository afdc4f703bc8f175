-- ===== src/Queue/Dequeue.antt =====
-- Taking nodes out of the readiness queue of src/poll.rs, from its front.
use sickle.Base.{
  ◌≡◌, ◌≢◌, refl, subst, inl, inr, true, false, some, List, [], ◌∷◌, ◌==◌, All, update, arith, ok,
  ◌∙◌,
}
use sickle.Queue.Defs.{
  Ptr, null, end_marker, sleep_marker, Node, Queue, node_at, empty, dequeue_node, take_tail,
  clear_sleep_marker, set_next, next_of, is_marker, new, marker,
}
use sickle.Queue.Links.{Points, Linked, Distinct}
use sickle.Queue.Fifo.{
  Live, marked, plain, IsReal, IsQueue, Live-update, enqueued, enqueue_node-enqueued,
}

abbrev pub Kept : Queue → Queue → Type 0
Kept q q' = (j : Ptr) → Live q j → Live q' j

-- What the first node leads to.
abbrev pub first_of : List Ptr → Ptr
first_of [] = null
first_of (x ∷ xs) = x

pub Linked-first :
    (q : Queue) (p : Ptr) (ns : List Ptr)
    → Linked q.nodes q.head_readiness p ns
    → Points q.nodes p (first_of ns)
Linked-first q p [] l = l.0
Linked-first q p (x ∷ xs) l = l.0

-- The only node is taken out: the end marker takes its place.
take_last :
    (q : Queue) (p until : Ptr)
    → IsReal p
    → Live q end_marker
    → Live q sleep_marker
    → Linked q.nodes q.head_readiness p []
    → p ≢ until
    → (q' : Queue) × (take_tail q p null until ≡ ok (node_at p, q'))
      × IsQueue q' []
      × Kept q q'
      × ((q'.tail_readiness == sleep_marker) ≡ false)
unfolding take_tail enqueued
take_last q p until real (n, live) (s, live') (pt, e) ne =
    let head_live : q.nodes q.head_readiness ≡ some pt.node = rw e pt.live in
    let added =
      enqueue_node-enqueued q end_marker n pt.node live head_live (ground arith) (ground arith) in
    let q1 = enqueued q end_marker n pt.node in
    let n' : Node = record n { next_readiness = null } in
    let h' : Node = record pt.node { next_readiness = end_marker } in
    let q' : Queue = record q1 { tail_readiness = end_marker } in
    let kept : Kept q q' = λ j l.
      Live-update (record q { nodes = update q.nodes end_marker (some n') }) q' q.head_readiness h'
        j refl
        (Live-update q (record q { nodes = update q.nodes end_marker (some n') }) end_marker n' j
          refl l) in
    (
      q',
      ground (arith, added),
      record {
        shape = marked (inl refl) (record { node = n'; live = ground arith; leads = refl }, refl);
        real = tt;
        distinct = tt;
        end_live = kept end_marker (n, live);
        sleep_live = kept sleep_marker (s, live');
      },
      kept,
      refl,
    )

take_front :
    (q : Queue) (p until : Ptr) (ns : List Ptr)
    → All IsReal (p ∷ ns)
    → Distinct (p ∷ ns)
    → Live q end_marker
    → Live q sleep_marker
    → Linked q.nodes q.head_readiness p ns
    → p ≢ until
    → (q' : Queue) × (take_tail q p (first_of ns) until ≡ ok (node_at p, q'))
      × IsQueue q' ns
      × Kept q q'
      × ((q'.tail_readiness == sleep_marker) ≡ false)
unfolding take_tail
take_front q p until [] real d live live' l ne = take_last q p until real.0 live live' l ne
take_front q p until (x ∷ xs) real d live live' l ne = (
  record q { tail_readiness = x },
  ground arith,
  record {
    shape = plain xs refl l.1;
    real = real.1;
    distinct = d.1;
    end_live = live;
    sleep_live = live';
  },
  λ j live. live,
  ground arith,
)

pub dequeue_marked :
    (q : Queue) (p until : Ptr) (ns : List Ptr)
    → is_marker q.tail_readiness ≡ true
    → IsReal p
    → Points q.nodes q.tail_readiness p
    → Points q.nodes p (first_of ns)
    → dequeue_node q until ≡ take_tail (record q { tail_readiness = p }) p (first_of ns) until
unfolding dequeue_node next_of
dequeue_marked q p until ns m real pt pt' = ground (arith, pt.live, pt.leads, pt'.live, pt'.leads)

pub dequeue_plain :
    (q : Queue) (until next : Ptr)
    → is_marker q.tail_readiness ≡ false
    → Points q.nodes q.tail_readiness next
    → dequeue_node q until ≡ take_tail q q.tail_readiness next until
unfolding dequeue_node next_of
dequeue_plain q until next m pt = ground (arith, pt.live, pt.leads)

front_plain :
    (q : Queue) (until : Ptr) (rest : List Ptr)
    → IsQueue q (q.tail_readiness ∷ rest)
    → Linked q.nodes q.head_readiness q.tail_readiness rest
    → q.tail_readiness ≢ until
    → (q' : Queue) × (dequeue_node q until ≡ ok (node_at q.tail_readiness, q'))
      × IsQueue q' rest
      × Kept q q'
      × ((q'.tail_readiness == sleep_marker) ≡ false)
front_plain q until rest v l ne =
    let (q', done, v', kept, awake) =
      take_front q q.tail_readiness until rest v.real v.distinct v.end_live v.sleep_live l ne in
    (
      q',
      dequeue_plain q until (first_of rest) (ground (arith, v.real.0))
            (Linked-first q q.tail_readiness rest l)
          ∙ done,
      v',
      kept,
      awake,
    )

-- `dequeue_node` hands out the node that has waited longest, unless it is `until`.
pub dequeue_node-cons :
    (q : Queue) (p until : Ptr) (ns : List Ptr)
    → IsQueue q (p ∷ ns)
    → p ≢ until
    → (q' : Queue) × (dequeue_node q until ≡ ok (node_at p, q'))
      × IsQueue q' ns
      × Kept q q'
      × ((q'.tail_readiness == sleep_marker) ≡ false)
dequeue_node-cons q p until ns v ne = elim v.shape [
  | marked m l ↦
      let q1 : Queue = record q { tail_readiness = p } in
      let (q', done, v', kept, awake) =
        take_front q1 p until ns v.real v.distinct v.end_live v.sleep_live l.1 ne in
      (
        q',
        dequeue_marked q p until ns (ground arith) v.real.0 l.0 (Linked-first q p ns l.1) ∙ done,
        v',
        kept,
        awake,
      )
  | plain rest e l ↦
      let first : p ≡ q.tail_readiness = cc in
      let others : ns ≡ rest = cc in
      rw (first, others) (front_plain q until rest (subst (IsQueue q) e v) l (rw (← first) ne))
]

unfoldable pub woken_up : (q : Queue) → (n : Node) → Queue
woken_up q n = record q {
  nodes = update q.nodes end_marker (some (record n { next_readiness = null }));
  head_readiness = end_marker;
  tail_readiness = end_marker;
}

pub woken_up-IsQueue :
    (q : Queue) (n : Node)
    → q.nodes end_marker ≡ some n
    → IsQueue q []
    → IsQueue (woken_up q n) [] × Kept q (woken_up q n)
unfolding woken_up
woken_up-IsQueue q n live v =
    let n' : Node = record n { next_readiness = null } in
    let kept : Kept q (woken_up q n) = λ j l. Live-update q (woken_up q n) end_marker n' j refl l in
    (
      record {
        shape = marked (inl refl) (record { node = n'; live = ground arith; leads = refl }, refl);
        real = tt;
        distinct = tt;
        end_live = kept end_marker v.end_live;
        sleep_live = kept sleep_marker v.sleep_live;
      },
      kept,
    )

dequeue_asleep :
    (q : Queue) (until : Ptr) (n : Node)
    → q.tail_readiness ≡ sleep_marker
    → q.head_readiness ≡ q.tail_readiness
    → Points q.nodes q.tail_readiness null
    → q.nodes end_marker ≡ some n
    → dequeue_node q until ≡ ok (empty, woken_up q n)
unfolding dequeue_node next_of clear_sleep_marker set_next woken_up
dequeue_asleep q until n m h pt live = ground (arith, pt.live, pt.leads)

dequeue_awake :
    (q : Queue) (until : Ptr)
    → q.tail_readiness ≡ end_marker
    → Points q.nodes q.tail_readiness null
    → dequeue_node q until ≡ ok (empty, q)
unfolding dequeue_node next_of clear_sleep_marker
dequeue_awake q until m pt = ground (arith, pt.live, pt.leads)

-- An empty queue stays empty, and says so; the consumer is taken to be awake again.
pub dequeue_node-nil :
    (q : Queue) (until : Ptr)
    → IsQueue q []
    → (q' : Queue) × (dequeue_node q until ≡ ok (empty, q'))
      × IsQueue q' []
      × Kept q q'
      × (q'.tail_readiness ≡ end_marker)
unfolding woken_up
dequeue_node-nil q until v = elim v.shape [
  | plain rest e l ↦ absurd (cc)
  | marked (inl m) l ↦ (q, dequeue_awake q until m l.0, v, λ j live. live, m)
  | marked (inr m) l ↦
      let (n, live) = v.end_live in
      let (v', kept) = woken_up-IsQueue q n live v in
      (woken_up q n, dequeue_asleep q until n m l.1 l.0 live, v', kept, refl)
]

-- The new queue is empty.
pub new-IsQueue : IsQueue new []
unfolding new marker
new-IsQueue = record {
  shape = marked (inl refl) (record { node = marker; live = refl; leads = refl }, refl);
  real = tt;
  distinct = tt;
  end_live = (marker, refl);
  sleep_live = (marker, refl);
}
