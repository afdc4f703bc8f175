-- ===== src/Queue/Arrivals.antt =====
-- Nodes that several calls of `enqueue_node_with_wakeup` hand in, src/poll.rs.
use sickle.Base.{
  ◌+◌, ◌≡◌, ◌≢◌, refl, sym, subst, inl, inr, Bool, true, false, List, [], ◌∷◌, ◌++◌, append_assoc,
  append-nil, ◌==◌, arith, All, All-parts, Outcome, ok, ◌>>=◌, After, Bool-cases, if◌then◌else◌,
}
use sickle.Queue.Defs.{Ptr, Node, Queue, sleep_marker, enqueue_node, enqueue_node_with_wakeup}
use sickle.Queue.Links.{Apart, Distinct}
use sickle.Queue.Fifo.{IsReal, IsQueue, IsQueue-open, enqueue_node-IsQueue}
use sickle.Queue.Frame.{Has, Frames, enqueue_node-Frames, IsQueue-counted}

-- The nodes are handed in one after the other.
unfoldable pub hand_in : Queue → List Ptr → Outcome Queue
unfolding enqueue_node_with_wakeup
hand_in q [] = ok q
hand_in q (n ∷ ns) = do q1 ← enqueue_node_with_wakeup q n; hand_in q1 ns

pub Distinct-middle : (ws ns : List Ptr) (n : Ptr) → Distinct (ws ++ n ∷ ns) → Apart n ws
Distinct-middle [] ns n d = tt
Distinct-middle (x ∷ ws) ns n d =
    let far = (All-parts (λ y. x ≢ y) ws (n ∷ ns) d.0).1 in
    ((λ e. far.0 (sym e)), Distinct-middle ws ns n d.1)

woken :
    (q q1 : Queue) (n : Ptr) (asleep : Bool)
    → enqueue_node q n ≡ ok (asleep, q1)
    → enqueue_node_with_wakeup q n
      ≡ ok (if asleep then record q1 { wakeups = q1.wakeups + 1 } else q1)
unfolding enqueue_node_with_wakeup
woken q q1 n asleep done = ground (arith, done)

-- A live node that does not wait yet joins those that wait.
pub enqueue_node_with_wakeup-IsQueue :
    (q : Queue) (ws : List Ptr) (n : Ptr) (m : Node)
    → IsQueue q ws
    → Has q n m
    → IsReal n
    → Apart n ws
    → (q' : Queue) × (enqueue_node_with_wakeup q n ≡ ok q')
      × IsQueue q' (ws ++ n ∷ [])
      × Frames q q'
enqueue_node_with_wakeup-IsQueue q ws n m v has real apart =
    let (q1, done, v1, _, _) =
      enqueue_node-IsQueue q ws n v (record m { next_readiness = has.0 }, has.1) real apart in
    let frames : Frames q q1 =
      subst (After (λ (r : Bool × Queue). Frames q r.1)) done
        (enqueue_node-Frames q n (inl (IsQueue-open q ws v))) in
    elim (Bool-cases (q.head_readiness == sleep_marker)) [
      | inl e ↦ (
        record q1 { wakeups = q1.wakeups + 1 },
        woken q q1 n true (rw (← e) done),
        IsQueue-counted q1 (ws ++ n ∷ []) (q1.wakeups + 1) v1,
        frames,
      )
      | inr e ↦ (q1, woken q q1 n false (rw (← e) done), v1, frames)
    ]

carried :
    (q q' : Queue) (ns : List Ptr)
    → Frames q q'
    → All (λ n. IsReal n × ((m : Node) × Has q n m)) ns
    → All (λ n. IsReal n × ((m : Node) × Has q' n m)) ns
carried q q' [] frames h = tt
carried q q' (n ∷ ns) frames ((real, (m, has)), h) =
    ((real, (m, frames n m has)), carried q q' ns frames h)

-- Live nodes that do not wait yet join those that wait, in their order.
pub hand_in-IsQueue :
    (q : Queue) (ws ns : List Ptr)
    → IsQueue q ws
    → All (λ n. IsReal n × ((m : Node) × Has q n m)) ns
    → Distinct (ws ++ ns)
    → (q' : Queue) × (hand_in q ns ≡ ok q') × IsQueue q' (ws ++ ns) × Frames q q'
unfolding hand_in
hand_in-IsQueue q ws [] v live d = (q, refl, rw (append-nil ws) v, λ j n has. has)
hand_in-IsQueue q ws (n ∷ ns) v live d =
    let ((real, (m, has)), others) = live in
    let (q1, done, v1, frames) =
      enqueue_node_with_wakeup-IsQueue q ws n m v has real (Distinct-middle ws ns n d) in
    let (q2, done2, v2, frames2) =
      hand_in-IsQueue q1 (ws ++ n ∷ []) ns v1 (carried q q1 ns frames others)
        (rw (append_assoc ws (n ∷ []) ns) d) in
    (
      q2,
      rw (done, done2) refl,
      rw (← append_assoc ws (n ∷ []) ns) v2,
      λ j k h. frames2 j k (frames j k h),
    )
