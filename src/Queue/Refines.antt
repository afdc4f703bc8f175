-- ===== src/Queue/Refines.antt =====
-- The readiness queue of src/poll.rs against an abstract queue: a list, and whether the consumer sleeps.
use sickle.Base.{
  ◌≡◌, refl, subst, Bool, true, false, Option, none, some, List, [], ◌∷◌, ◌++◌, ◌==◌, All, arith,
  ok, Outcome, ◌>>=◌, ◌&&◌, if◌then◌else◌,
}
use sickle.Queue.Defs.{
  Ptr, null, sleep_marker, Queue, Dequeue, node_at, empty, inconsistent, enqueue_node, dequeue_node,
  prepare_for_sleep,
}
use sickle.Queue.Links.{Linked-head, Apart}
use sickle.Queue.Fifo.{Live, IsReal, IsQueue, marked, plain, enqueue_node-IsQueue}
use sickle.Queue.Dequeue.{dequeue_node-cons, dequeue_node-nil, Kept}
use sickle.Queue.Sleep.{is_nil, prepare_for_sleep-nil, prepare_for_sleep-cons}

-- A call of `enqueue_node`, of `dequeue_node`, or of `prepare_for_sleep`.
pub data Op : Type 0 where
  put : Ptr → Op
  take : Op
  sleep : Op

-- Whether the consumer has to be woken, the node that is handed out, or whether to sleep.
pub data Answer : Type 0 where
  wakes : Bool → Answer
  took : Option Ptr → Answer
  sleeps : Bool → Answer

-- What a `Dequeue` says; the queue is never seen between the two writes of an enqueue here.
answer_of : Dequeue → Outcome Answer
answer_of (node_at p) = ok (took (some p))
answer_of empty = ok (took none)
answer_of inconsistent = Outcome.panic

unfoldable pub perform : Queue → Op → Outcome (Answer × Queue)
unfolding answer_of
perform q (put p) = do (asleep, q') ← enqueue_node q p; ok (wakes asleep, q')
perform q take = do (d, q') ← dequeue_node q null; a ← answer_of d; ok (a, q')
perform q sleep = do (b, q') ← prepare_for_sleep q; ok (sleeps b, q')

unfoldable pub run : Queue → List Op → Outcome (List Answer × Queue)
run q [] = ok ([], q)
run q (op ∷ ops) = do (a, q1) ← perform q op; (as', q2) ← run q1 ops; ok (a ∷ as', q2)

-- The abstract queue.
pub record Fifo : Type 0 where
  pub waiting : List Ptr
  pub asleep : Bool

unfoldable pub expected : Fifo → Op → Answer × Fifo
expected s (put p) =
    (wakes (s.asleep && is_nil s.waiting), record s { waiting = s.waiting ++ p ∷ [] })
expected s take = elim s.waiting [
  | [] ↦ (took none, record { waiting = []; asleep = false })
  | p ∷ ns ↦ (took (some p), record { waiting = ns; asleep = false })
]
expected s sleep =
    (sleeps (is_nil s.waiting), record s { asleep = if is_nil s.waiting then true else s.asleep })

unfoldable pub expected_run : Fifo → List Op → List Answer × Fifo
unfolding expected
expected_run s [] = ([], s)
expected_run s (op ∷ ops) =
    let (a, s1) = expected s op in let (as', s2) = expected_run s1 ops in (a ∷ as', s2)

-- The nodes that are put in are live, no markers, and not in the queue at that time.
abbrev pub IsFor : Queue → Fifo → Op → Type 0
IsFor q s (put p) = Live q p × IsReal p × Apart p s.waiting
IsFor q s take = Unit
IsFor q s sleep = Unit

unfoldable pub AreFor : Queue → Fifo → List Op → Type 0
AreFor q s [] = Unit
AreFor q s (op ∷ ops) = IsFor q s op × AreFor q (expected s op).1 ops

pub record Refines (q : Queue) (s : Fifo) : Type 0 where
  pub queue : IsQueue q s.waiting
  pub sleeper : (q.tail_readiness == sleep_marker) ≡ s.asleep

-- The sleep marker is at the head exactly if the consumer sleeps and nothing waits.
head_asleep :
    (q : Queue) (ns : List Ptr)
    → IsQueue q ns
    → (q.head_readiness == sleep_marker) ≡ ((q.tail_readiness == sleep_marker) && is_nil ns)
head_asleep q [] v = elim v.shape [
  | plain rest e l ↦ absurd (cc)
  | marked m l ↦ ground (arith, l.1)
]
head_asleep q (p ∷ ns) v = elim v.shape [
  | plain rest e l ↦
      let real : All IsReal (q.tail_readiness ∷ rest) = subst (All IsReal) e v.real in
      let large =
        Linked-head IsReal q.nodes q.head_readiness q.tail_readiness rest l real.0 real.1 in
      ground (arith, large)
  | marked m l ↦
      let large = Linked-head IsReal q.nodes q.head_readiness p ns l.1 v.real.0 v.real.1 in
      ground (arith, large)
]

abbrev Performs : Queue → Fifo → Op → Type 0
Performs q s op =
    (q' : Queue) × (perform q op ≡ ok ((expected s op).0, q'))
    × Refines q' (expected s op).1
    × Kept q q'

put-Performs :
    (q : Queue) (s : Fifo) (p : Ptr) → Refines q s → IsFor q s (put p) → Performs q s (put p)
unfolding perform expected
put-Performs q s p v h =
    let (q', done, v', kept, same) = enqueue_node-IsQueue q s.waiting p v.queue h.0 h.1 h.2 in
    (
      q',
      rw (done, head_asleep q s.waiting v.queue, v.sleeper),
      record { queue = v'; sleeper = rw same v.sleeper },
      kept,
    )

take-Performs :
    (q : Queue) (ns : List Ptr) (asleep : Bool)
    → Refines q (record { waiting = ns; asleep = asleep })
    → Performs q (record { waiting = ns; asleep = asleep }) take
unfolding perform expected
take-Performs q [] asleep v =
    let (q', done, v', kept, m) = dequeue_node-nil q null v.queue in
    (q', rw (done, answer_of), record { queue = v'; sleeper = rw m refl }, kept)
take-Performs q (p ∷ ns) asleep v =
    let (q', done, v', kept, awake) =
      dequeue_node-cons q p null ns v.queue (ground (arith, v.queue.real.0)) in
    (q', rw (done, answer_of), record { queue = v'; sleeper = awake }, kept)

sleep-Performs :
    (q : Queue) (ns : List Ptr) (asleep : Bool)
    → Refines q (record { waiting = ns; asleep = asleep })
    → Performs q (record { waiting = ns; asleep = asleep }) sleep
unfolding perform expected
sleep-Performs q [] asleep v =
    let (q', done, v', kept, m) = prepare_for_sleep-nil q v.queue in
    (q', rw done, record { queue = v'; sleeper = rw m refl }, kept)
sleep-Performs q (p ∷ ns) asleep v =
    let (q', done, v', kept, same) = prepare_for_sleep-cons q p ns v.queue in
    (q', rw done, record { queue = v'; sleeper = rw same v.sleeper }, kept)

perform-Refines : (q : Queue) (s : Fifo) (op : Op) → Refines q s → IsFor q s op → Performs q s op
perform-Refines q s (put p) v h = put-Performs q s p v h
perform-Refines q s take v h = take-Performs q s.waiting s.asleep v
perform-Refines q s sleep v h = sleep-Performs q s.waiting s.asleep v

AreFor-Kept :
    (q q' : Queue) (s : Fifo) (ops : List Op) → Kept q q' → AreFor q s ops → AreFor q' s ops
unfolding AreFor
AreFor-Kept q q' s [] kept h = tt
AreFor-Kept q q' s (put p ∷ ops) kept h =
    ((kept p h.0.0, h.0.1, h.0.2), AreFor-Kept q q' (expected s (put p)).1 ops kept h.1)
AreFor-Kept q q' s (take ∷ ops) kept h = (tt, AreFor-Kept q q' (expected s take).1 ops kept h.1)
AreFor-Kept q q' s (sleep ∷ ops) kept h = (tt, AreFor-Kept q q' (expected s sleep).1 ops kept h.1)

-- The queue implements the abstract one: any sequence of `enqueue_node`, `dequeue_node` and
-- `prepare_for_sleep`, each running alone, does not fail, gives the same answers as the abstract queue,
-- and ends in a queue that stands for its state. So nodes leave in the order in which they came, an
-- enqueue asks for a wakeup exactly when the consumer sleeps and nothing waits, and the consumer may
-- sleep exactly when nothing waits. The nodes that are put in are live and not in the queue.
pub run-Refines :
    (q : Queue) (s : Fifo) (ops : List Op)
    → Refines q s
    → AreFor q s ops
    → (q' : Queue) × (run q ops ≡ ok ((expected_run s ops).0, q'))
      × Refines q' (expected_run s ops).1
unfolding run expected_run AreFor
run-Refines q s [] v h = (q, refl, v)
run-Refines q s (op ∷ ops) v h =
    let (q1, done, v1, kept) = perform-Refines q s op v h.0 in
    let (q2, done', v2) =
      run-Refines q1 (expected s op).1 ops v1 (AreFor-Kept q q1 (expected s op).1 ops kept h.1) in
    (q2, rw (done, done'), v2)
