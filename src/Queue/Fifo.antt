-- ===== src/Queue/Fifo.antt =====
-- The readiness queue of src/poll.rs as the list of the nodes that wait in it, the first to leave first.
use sickle.Base.{
  ◌<◌, ◌≡◌, ◌≢◌, refl, sym, subst, ◌⊎◌, some, List, [], ◌∷◌, ◌++◌, ◌==◌, All, update, arith, ok,
  if◌then◌else◌,
}
use sickle.Queue.Defs.{
  Ptr, null, end_marker, sleep_marker, closed_marker, Node, Queue, enqueue_node,
}
use sickle.Queue.Links.{
  Linked, Apart, Distinct, Linked-update, Linked-head, Linked-last, Linked-append,
}

abbrev pub Live : Queue → Ptr → Type 0
Live q p = (n : Node) × (q.nodes p ≡ some n)

-- The end and the sleep marker stand before the nodes, as long as the tail is there; no marker is
-- among the nodes, which have other addresses.
pub data Shape (q : Queue) (ns : List Ptr) : Type 0 where
  marked :
      (q.tail_readiness ≡ end_marker) ⊎ (q.tail_readiness ≡ sleep_marker)
      → Linked q.nodes q.head_readiness q.tail_readiness ns
      → Shape q ns
  plain :
      (rest : List Ptr)
      → ns ≡ q.tail_readiness ∷ rest
      → Linked q.nodes q.head_readiness q.tail_readiness rest
      → Shape q ns

abbrev pub IsReal : Ptr → Type 0
IsReal p = closed_marker < p

pub record IsQueue (q : Queue) (ns : List Ptr) : Type 0 where
  pub shape : Shape q ns
  pub real : All IsReal ns
  pub distinct : Distinct ns
  pub end_live : Live q end_marker
  pub sleep_live : Live q sleep_marker

-- The addresses of the chain from the tail on.
record Chain (q : Queue) (ns : List Ptr) : Type 0 where
  rest : List Ptr
  linked : Linked q.nodes q.head_readiness q.tail_readiness rest
  apart : Distinct (q.tail_readiness ∷ rest)
  open_tail : q.tail_readiness ≢ closed_marker
  fresh : (p : Ptr) → IsReal p → Apart p ns → (p ≢ q.tail_readiness) × Apart p rest
  open_rest : All (λ x. x ≢ closed_marker) rest
  extend :
      (q' : Queue) (k : Ptr)
      → q'.tail_readiness ≡ q.tail_readiness
      → Linked q'.nodes q'.head_readiness q'.tail_readiness (rest ++ k ∷ [])
      → Shape q' (ns ++ k ∷ [])

pub real-ne :
    (m : Ptr) (ns : List Ptr)
    → (m < closed_marker) ⊎ (m ≡ closed_marker)
    → All IsReal ns
    → Apart m ns
real-ne m [] h real = tt
real-ne m (x ∷ xs) h real = (ground arith, real-ne m xs h real.1)

real-open : (ns : List Ptr) → All IsReal ns → All (λ x. x ≢ closed_marker) ns
real-open [] real = tt
real-open (x ∷ xs) real = (ground arith, real-open xs real.1)

Chain-queue : (q : Queue) (ns : List Ptr) → IsQueue q ns → Chain q ns
Chain-queue q ns v = elim v.shape [
  | marked m l ↦ record {
    rest = ns;
    linked = l;
    apart = (real-ne q.tail_readiness ns (ground arith) v.real, v.distinct);
    open_tail = ground arith;
    fresh = λ p real apart. (ground arith, apart);
    open_rest = real-open ns v.real;
    extend = λ q' k same l'. marked (ground arith) l';
  }
  | plain rest e l ↦
      let real : All IsReal (q.tail_readiness ∷ rest) = subst (All IsReal) e v.real in
      let distinct : Distinct (q.tail_readiness ∷ rest) = subst Distinct e v.distinct in
      record {
        rest = rest;
        linked = l;
        apart = distinct;
        open_tail = ground (arith, real.0);
        fresh = λ p real' apart.
            let apart' : Apart p (q.tail_readiness ∷ rest) = subst (Apart p) e apart in
            (apart'.0, apart'.1);
        open_rest = real-open rest real.1;
        extend = λ q' k same l'. plain (rest ++ k ∷ []) (cc) l';
      }
]

Apart-append : (x p : Ptr) (ns : List Ptr) → Apart x ns → x ≢ p → Apart x (ns ++ p ∷ [])
Apart-append x p [] h ne = (ne, tt)
Apart-append x p (y ∷ ns) h ne = (h.0, Apart-append x p ns h.1 ne)

Distinct-append : (ns : List Ptr) (p : Ptr) → Distinct ns → Apart p ns → Distinct (ns ++ p ∷ [])
Distinct-append [] p d apart = (tt, tt)
Distinct-append (x ∷ ns) p d apart =
    (Apart-append x p ns d.0 (λ e. apart.0 (sym e)), Distinct-append ns p d.1 apart.1)

IsReal-append : (ns : List Ptr) (p : Ptr) → All IsReal ns → IsReal p → All IsReal (ns ++ p ∷ [])
IsReal-append [] p real real' = (real', tt)
IsReal-append (x ∷ ns) p real real' = (real.0, IsReal-append ns p real.1 real')

-- A heap in which the node at `k` is replaced by another keeps all nodes that are live.
pub Live-update :
    (q q' : Queue) (k : Ptr) (n : Node) (j : Ptr)
    → q'.nodes ≡ update q.nodes k (some n)
    → Live q j
    → Live q' j
Live-update q q' k n j e (m, live) = ((if j == k then n else m), rw e (ground arith))

-- The queue after `p`, with the node `n`, has been put behind the head, with the node `h`.
unfoldable pub enqueued : Queue → Ptr → (n h : Node) → Queue
enqueued q p n h = record q {
  nodes =
      update (update q.nodes p (some (record n { next_readiness = null }))) q.head_readiness
        (some (record h { next_readiness = p }));
  head_readiness = p;
}

pub enqueue_node-enqueued :
    (q : Queue) (p : Ptr) (n h : Node)
    → q.nodes p ≡ some n
    → q.nodes q.head_readiness ≡ some h
    → q.head_readiness ≢ closed_marker
    → q.head_readiness ≢ p
    → enqueue_node q p ≡ ok (q.head_readiness == sleep_marker, enqueued q p n h)
unfolding enqueue_node enqueued
enqueue_node-enqueued q p n h live live' open' ne = ground arith

-- A queue that holds its nodes is open.
pub IsQueue-open : (q : Queue) (ns : List Ptr) → IsQueue q ns → q.head_readiness ≢ closed_marker
IsQueue-open q ns v =
    let c = Chain-queue q ns v in
    Linked-head (λ x. x ≢ closed_marker) q.nodes q.head_readiness q.tail_readiness c.rest c.linked
      c.open_tail c.open_rest

-- `enqueue_node` puts a live node that is not in the queue at its end, and says whether the consumer is
-- asleep: whether the sleep marker was at the head. Every node stays live.
pub enqueue_node-IsQueue :
    (q : Queue) (ns : List Ptr) (p : Ptr)
    → IsQueue q ns
    → Live q p
    → IsReal p
    → Apart p ns
    → (q' : Queue) × (enqueue_node q p ≡ ok (q.head_readiness == sleep_marker, q'))
      × IsQueue q' (ns ++ p ∷ [])
      × ((j : Ptr) → Live q j → Live q' j)
      × (q'.tail_readiness ≡ q.tail_readiness)
unfolding enqueued
enqueue_node-IsQueue q ns p v (n, live) real apart =
    let c = Chain-queue q ns v in
    let (ne, apart') = c.fresh p real apart in
    let open' = IsQueue-open q ns v in
    let other : p ≢ q.head_readiness =
      Linked-head (λ x. p ≢ x) q.nodes q.head_readiness q.tail_readiness c.rest c.linked ne
        apart' in
    let last = Linked-last q.nodes q.head_readiness q.tail_readiness c.rest c.linked in
    let n' : Node = record n { next_readiness = null } in
    let q1 : Queue = record q { nodes = update q.nodes p (some n') } in
    let q2 = enqueued q p n last.node in
    let kept = λ (j : Ptr) (l : Live q j).
      Live-update q1 q2 q.head_readiness (record last.node { next_readiness = p }) j refl
        (Live-update q q1 p n' j refl l) in
    (
      q2,
      enqueue_node-enqueued q p n last.node live last.live open' (λ e. other (sym e)),
      record {
        shape = c.extend q2 p refl (
            Linked-append q1.nodes q.head_readiness q.tail_readiness c.rest p last.node c.apart ne
              apart' (record { node = n'; live = ground arith; leads = refl })
              (Linked-update q.nodes q.head_readiness q.tail_readiness c.rest p (some n') ne apart'
                c.linked));
        real = IsReal-append ns p v.real real;
        distinct = Distinct-append ns p v.distinct apart;
        end_live = kept end_marker v.end_live;
        sleep_live = kept sleep_marker v.sleep_live;
      },
      kept,
      refl,
    )
