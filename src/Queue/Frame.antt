-- ===== src/Queue/Frame.antt =====
-- What the operations on the readiness queue of src/poll.rs leave as it is.
use sickle.Base.{
  ℕ, ◌≡◌, ◌≢◌, refl, subst, ◌⊎◌, inl, inr, Bool, Option, some, List, [], ◌∷◌, ◌==◌, ==_iff, update,
  arith, ok, Outcome, After, After-bind, After-last, After-if, Option-cases, Bool-cases, true,
  ◌>>=◌,
}
use sickle.Queue.Defs.{
  Ptr, null, end_marker, sleep_marker, closed_marker, Node, Queue, Dequeue, set_next, next_of,
  enqueue_node, take_tail, clear_sleep_marker, dequeue_node, prepare_for_sleep, is_marker,
}
use sickle.Queue.Links.{Points, Linked, Apart, Linked-update}
use sickle.Queue.Fifo.{Live, marked, plain, IsReal, IsQueue}

-- At `j` there is the node `n`, but for its link.
abbrev pub Has : Queue → Ptr → Node → Type 0
Has q j n = (next : Ptr) × (q.nodes j ≡ some (record n { next_readiness = next }))

-- Every node is as before, but for its link; or every node but that at `p`.
abbrev pub Frames : Queue → Queue → Type 0
Frames q q' = (j : Ptr) (n : Node) → Has q j n → Has q' j n

abbrev pub FramesBut : Ptr → Queue → Queue → Type 0
FramesBut p q q' = (j : Ptr) (n : Node) → j ≢ p → Has q j n → Has q' j n

updated :
    (q : Queue) (p x j : Ptr) (m n : Node)
    → q.nodes p ≡ some m
    → Has q j n
    → (next : Ptr) × (update q.nodes p (some (record m { next_readiness = x })) j
        ≡ some (record n { next_readiness = next }))
updated q p x j m n live (next, there) = elim (Bool-cases (j == p)) [
  | inl e ↦ (x, ground (arith, ==_iff j p))
  | inr e ↦ (next, rw e there)
]

set_next-Frames : (q : Queue) (p x : Ptr) → After (Frames q) (set_next q p x)
unfolding set_next
set_next-Frames q p x = elim (Option-cases (q.nodes p)) [
  | inl h ↦ rw h tt
  | inr (m, h) ↦ rw h (λ j n has. updated q p x j m n h has)
]

-- What is left of all nodes after a step that may fail.
abbrev pub Leaves : Queue → {A : Type 0} → Outcome (A × Queue) → Type 0
Leaves q {A} m = After (λ (r : A × Queue). Frames q r.1) m

head_kept :
    (q : Queue) (p x : Ptr)
    → After (λ q'. (q'.head_readiness ≡ q.head_readiness) × Frames q q') (set_next q p x)
unfolding set_next
head_kept q p x = elim (Option-cases (q.nodes p)) [
  | inl h ↦ rw h tt
  | inr (m, h) ↦ rw h (refl, λ j n has. updated q p x j m n h has)
]

linked_on :
    (q q1 : Queue) (prev p : Ptr) (b : Bool)
    → Frames q q1
    → Leaves q (do q2 ← set_next (record q1 { head_readiness = p }) prev p; ok (b, q2))
linked_on q q1 prev p b fr =
    After-bind (Frames q1) (λ (r : Bool × Queue). Frames q r.1)
      (set_next (record q1 { head_readiness = p }) prev p) (λ q2. ok (b, q2))
      (set_next-Frames (record q1 { head_readiness = p }) prev p)
      (λ q2 fr2 j n has. fr2 j n (fr j n has))

-- `enqueue_node` releases no node of a queue that is not closed, and never the end marker.
pub enqueue_node-Frames :
    (q : Queue) (p : Ptr)
    → (q.head_readiness ≢ closed_marker) ⊎ (p ≡ end_marker)
    → Leaves q (enqueue_node q p)
unfolding enqueue_node
enqueue_node-Frames q p h =
    After-bind (λ q'. (q'.head_readiness ≡ q.head_readiness) × Frames q q')
      (λ (r : Bool × Queue). Frames q r.1) (set_next q p null) _ (head_kept q p null)
      (λ q1 kept. elim (Bool-cases (q1.head_readiness == closed_marker)) [
        | inl e ↦
            let last : (p == end_marker) ≡ true = ground (arith, e, h, kept.0) in
            rw (e, last) kept.1
        | inr e ↦ rw e (linked_on q q1 q1.head_readiness p _ kept.1)
      ])

pub clear_sleep_marker-Frames : (q : Queue) → After (Frames q) (clear_sleep_marker q)
unfolding clear_sleep_marker
clear_sleep_marker-Frames q =
    After-if (Frames q) (q.tail_readiness == sleep_marker) _ (ok q)
      (After-bind (Frames q) (Frames q) (set_next q end_marker null) _
        (set_next-Frames q end_marker null)
        (λ q1 fr. elim (Bool-cases (q1.head_readiness == sleep_marker)) [
          | inl e ↦ rw e fr
          | inr e ↦ rw e fr
        ]))
      (λ j n has. has)

take_tail-Frames : (q : Queue) (tail next until : Ptr) → Leaves q (take_tail q tail next until)
unfolding take_tail
take_tail-Frames q tail next until =
    After-if (λ (r : Dequeue × Queue). Frames q r.1) (tail == until) _ _ (λ j n has. has)
      (After-if (λ (r : Dequeue × Queue). Frames q r.1) (next == null) _ _
        (After-if (λ (r : Dequeue × Queue). Frames q r.1) (q.head_readiness == tail) _ _
          (After-bind (λ (r : Bool × Queue). Frames q r.1) (λ (r : Dequeue × Queue). Frames q r.1)
            (enqueue_node q end_marker) _ (enqueue_node-Frames q end_marker (inr refl))
            (λ r fr.
              After-last (λ (r : Dequeue × Queue). Frames q r.1) (next_of r.1 tail) _
                (λ next'. elim (Bool-cases (next' == null)) [ inl e ↦ rw e fr | inr e ↦ rw e fr ])))
          (λ j n has. has))
        (λ j n has. has))

pub dequeue_node-Frames : (q : Queue) (until : Ptr) → Leaves q (dequeue_node q until)
unfolding dequeue_node
dequeue_node-Frames q until =
    After-last (λ (r : Dequeue × Queue). Frames q r.1) (next_of q q.tail_readiness) _
      (λ next.
        After-if (λ (r : Dequeue × Queue). Frames q r.1) (is_marker q.tail_readiness) _ _
          (After-if (λ (r : Dequeue × Queue). Frames q r.1) (next == null) _ _
            (After-bind (Frames q) (λ (r : Dequeue × Queue). Frames q r.1) (clear_sleep_marker q) _
              (clear_sleep_marker-Frames q) (λ q1 fr. fr))
            (After-last (λ (r : Dequeue × Queue). Frames q r.1) (next_of q next) _
              (λ next'. take_tail-Frames (record q { tail_readiness = next }) next next' until)))
          (take_tail-Frames q q.tail_readiness next until))

pub prepare_for_sleep-Frames : (q : Queue) → Leaves q (prepare_for_sleep q)
unfolding prepare_for_sleep
prepare_for_sleep-Frames q =
    After-if (λ (r : Bool × Queue). Frames q r.1) (q.tail_readiness == sleep_marker) _ _
      (λ j n has. has)
      (After-if (λ (r : Bool × Queue). Frames q r.1) (q.tail_readiness == end_marker) _ _
        (After-bind (Frames q) (λ (r : Bool × Queue). Frames q r.1) (set_next q sleep_marker null) _
          (set_next-Frames q sleep_marker null)
          (λ q1 fr. elim (Bool-cases (q1.head_readiness == end_marker)) [
            | inl e ↦ rw e fr
            | inr e ↦ rw e fr
          ]))
        (λ j n has. has))

-- A write to a node that is not in the queue.
pub IsQueue-outside :
    (q : Queue) (ns : List Ptr) (p : Ptr) (o : Option Node)
    → IsQueue q ns
    → IsReal p
    → Apart p ns
    → IsQueue (record q { nodes = update q.nodes p o }) ns
IsQueue-outside q ns p o v real apart =
    let (e, end_live) = v.end_live in
    let (s, sleep_live) = v.sleep_live in
    record {
      shape = elim v.shape [
        | marked m l ↦
            marked m (
              Linked-update q.nodes q.head_readiness q.tail_readiness ns p o (ground arith) apart l)
        | plain rest same l ↦
            let apart' : Apart p (q.tail_readiness ∷ rest) = subst (Apart p) same apart in
            plain rest same
              (Linked-update q.nodes q.head_readiness q.tail_readiness rest p o apart'.0 apart'.1 l)
      ];
      real = v.real;
      distinct = v.distinct;
      end_live = (e, ground arith);
      sleep_live = (s, ground arith);
    }

abbrev Carries : Queue → Queue → Type 0
Carries q q' = (j next : Ptr) → Points q.nodes j next → Points q'.nodes j next

Linked-carried :
    (q q' : Queue) (head p : Ptr) (ns : List Ptr)
    → Carries q q'
    → Linked q.nodes head p ns
    → Linked q'.nodes head p ns
Linked-carried q q' head p [] carries l = (carries p null l.0, l.1)
Linked-carried q q' head p (x ∷ xs) carries l =
    (carries p x l.0, Linked-carried q q' head x xs carries l.1)

Live-carried : (q q' : Queue) (j : Ptr) → Carries q q' → Live q j → Live q' j
Live-carried q q' j carries (n, live) =
    let pt = carries j n.next_readiness (record { node = n; live = live; leads = refl }) in
    (pt.node, pt.live)

-- A write to a node that keeps its link.
pub IsQueue-stored :
    (q : Queue) (ns : List Ptr) (p : Ptr) (m m' : Node)
    → IsQueue q ns
    → q.nodes p ≡ some m
    → m'.next_readiness ≡ m.next_readiness
    → IsQueue (record q { nodes = update q.nodes p (some m') }) ns
IsQueue-stored q ns p m m' v live same =
    let q' : Queue = record q { nodes = update q.nodes p (some m') } in
    let carries : Carries q q' = λ j next pt. elim (Bool-cases (j == p)) [
      | inl e ↦ record {
        node = m';
        live = ground (arith, e);
        leads = ground (arith, ==_iff j p, e, pt.live, pt.leads, live, same);
      }
      | inr e ↦ record { node = pt.node; live = rw e pt.live; leads = pt.leads }
    ] in
    record {
      shape = elim v.shape [
        | marked m l ↦ marked m (Linked-carried q q' q.head_readiness q.tail_readiness ns carries l)
        | plain rest e l ↦
            plain rest e (Linked-carried q q' q.head_readiness q.tail_readiness rest carries l)
      ];
      real = v.real;
      distinct = v.distinct;
      end_live = Live-carried q q' end_marker carries v.end_live;
      sleep_live = Live-carried q q' sleep_marker carries v.sleep_live;
    }

-- The count of wakeups is no part of the queue.
pub IsQueue-counted :
    (q : Queue) (ns : List Ptr) (n : ℕ) → IsQueue q ns → IsQueue (record q { wakeups = n }) ns
IsQueue-counted q ns n v =
    let q' : Queue = record q { wakeups = n } in
    record {
      shape = elim v.shape [ marked m l ↦ marked m l | plain rest e l ↦ plain rest e l ];
      real = v.real;
      distinct = v.distinct;
      end_live = v.end_live;
      sleep_live = v.sleep_live;
    }
