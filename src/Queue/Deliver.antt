-- ===== src/Queue/Deliver.antt =====
-- What becomes of a node that `ReadinessQueue::poll` of src/poll.rs has taken out.
use sickle.Base.{
  ℕ, zero, suc, ◌-◌, ◌<◌, ◌≡◌, refl, subst, ◌∙◌, inl, inr, Bool, true, false, not, ◌&&◌, ◌||◌,
  Option, none, some, List, [], ◌∷◌, ◌++◌, append-nil, ◌==◌, update, arith, ok, After, Bool-cases,
  if◌then◌else◌,
}
use sickle.Event.{Event, Job, TokenEntry, noop}
use sickle.ReadinessState.{
  ReadinessState, is_dropped, is_queued, effective_readiness, token_read_pos, token_write_pos,
}
use sickle.Queue.Defs.{Ptr, null, token, Node, Queue, store, release_node, enqueue_node}
use sickle.Queue.Drain.{polled_state, deliver}
use sickle.Selector.{Events, push_event}
use sickle.Queue.Links.{Apart}
use sickle.Queue.Fifo.{IsReal, IsQueue, IsQueue-open, enqueue_node-IsQueue}
use sickle.Queue.Words.{is_idle, is_edge, polled_state-token_read_pos, polled_state-is_queued}
use sickle.Queue.Frame.{
  Has, Frames, FramesBut, enqueue_node-Frames, IsQueue-outside, IsQueue-stored,
}

-- The token at a position.
abbrev pub slot : Node → ℕ → TokenEntry
slot n zero = n.token_0
slot n (suc zero) = n.token_1
slot n (suc (suc k)) = n.token_2

-- The events for a node: none if it was dropped or no readiness is of interest, else one, with the
-- token that was written last and the node's job.
unfoldable pub events_of : Node → List (Event × Job)
unfolding is_dropped effective_readiness token_write_pos
events_of n =
    if is_dropped n.state || is_idle n.state
    then []
    else (
      record { kind = effective_readiness n.state; token = slot n (token_write_pos n.state) },
      n.job,
    )
      ∷ []

-- Whether a node is handed in again: a ready one that is level-triggered.
unfoldable pub stays : Node → Bool
unfolding is_dropped effective_readiness
stays n = not (is_dropped n.state) && not (is_edge n.state) && not (is_idle n.state)

-- What the queue keeps of its nodes: they are marked as queued, and their write position is one of the
-- three slots.
pub record IsNode (n : Node) : Type 0 where
  pub queued : is_queued n.state ≡ true
  pub pos : token_write_pos n.state < 3

-- Events pushed one after the other.
abbrev pub delivered : Events → List (Event × Job) → Events
delivered dst [] = dst
delivered dst (x ∷ es) = delivered (push_event dst x.0 x.1) es

abbrev pub again : Ptr → Node → List Ptr
again p n = if stays n then p ∷ [] else []

-- The mark at which the loop stops: the first node that was handed in again.
abbrev pub mark : Ptr → Ptr → Node → Ptr
mark until p n = if stays n then (if until == null then p else until) else until

-- A node that is handed out and does not come back: it is alive, ready and edge-triggered.
abbrev pub IsHanded : Node → Type 0
IsHanded n = (is_dropped n.state ≡ false) × (is_edge n.state ≡ true) × (is_idle n.state ≡ false)

-- What the poll leaves of it.
abbrev pub handed_out : Node → Node
handed_out n = record n { state = polled_state n.state; job = noop }

-- After the round: the queue, every other node, and the job of a node that was handed in again.
pub record Turned (q q' : Queue) (p : Ptr) (n : Node) (ns : List Ptr) : Type 0 where
  pub queue : IsQueue q' (ns ++ again p n)
  pub frames : FramesBut p q q'
  pub spent : stays n ≡ true → (m : Node) × Has q' p m × (m.job ≡ noop)
  pub handed : IsHanded n → Has q' p (handed_out n)

token_slot : (n : Node) (i : ℕ) → i < 3 → token n i ≡ ok (slot n i)
token_slot n zero h = refl
token_slot n (suc zero) h = refl
token_slot n (suc (suc zero)) h = refl
token_slot n (suc (suc (suc i))) h = absurd (omega arith)

pub outside_frames :
    (q : Queue) (p : Ptr) (o : Option Node)
    → FramesBut p q (record q { nodes = update q.nodes p o })
outside_frames q p o j n ne (next, there) = (next, ground arith)

pub release_node_lem :
    (q : Queue) (p : Ptr) (n : Node)
    → q.nodes p ≡ some n
    → (o : Option Node) × (release_node q p ≡ ok (record q { nodes = update q.nodes p o }))
unfolding release_node
release_node_lem q p n live = elim (Bool-cases (n.ref_count == 1)) [
  | inl e ↦ (none, rw (live, e) refl)
  | inr e ↦ (some (record n { ref_count = n.ref_count - 1 }), rw (live, e) refl)
]

module _ (q : Queue) (p until : Ptr) (m : Node) (next : ReadinessState) (dst : Events) where
  abbrev written : Node
  written = record m { state = next }

  deliver_again :
      (q2 : Queue) (m2 : Node) (asleep : Bool) (t : TokenEntry)
      → q.nodes p ≡ some m
      → is_queued next ≡ true
      → is_idle m.state ≡ false
      → enqueue_node (store q p written) p ≡ ok (asleep, q2)
      → q2.nodes p ≡ some m2
      → token m2 (token_read_pos next) ≡ ok t
      → deliver q p until m.state next dst
        ≡ ok (
          store q2 p (record m2 { job = noop }),
          if until == null then p else until,
          push_event dst (record { kind = effective_readiness m.state; token = t }) m2.job,
        )
  unfolding deliver
  deliver_again q2 m2 asleep t live queued ready enqueued there found =
      ground (arith, live, queued, enqueued, ready, there, found)

  deliver_once :
      (t : TokenEntry)
      → q.nodes p ≡ some m
      → is_queued next ≡ false
      → is_idle m.state ≡ false
      → token written (token_read_pos next) ≡ ok t
      → deliver q p until m.state next dst
        ≡ ok (
          store (store q p written) p (record written { job = noop }),
          until,
          push_event dst (record { kind = effective_readiness m.state; token = t }) m.job,
        )
  unfolding deliver
  deliver_once t live queued ready found =
      let same : (p == p) ≡ true = ground arith in rw (live, queued, ready, same, found) refl

  deliver_none :
      q.nodes p ≡ some m
      → is_queued next ≡ false
      → is_idle m.state ≡ true
      → deliver q p until m.state next dst ≡ ok (store q p written, until, dst)
  unfolding deliver
  deliver_none live queued idle = rw (live, queued, idle) refl

-- The cases of `stays` and `events_of`.
stays_idle : (n : Node) → is_idle n.state ≡ true → (stays n ≡ false) × (events_of n ≡ [])
unfolding stays events_of
stays_idle n h = ground (arith, h)

pub stays_dropped : (n : Node) → is_dropped n.state ≡ true → (stays n ≡ false) × (events_of n ≡ [])
unfolding stays events_of
stays_dropped n h = ground (arith, h)

stays_ready :
    (n : Node)
    → is_dropped n.state ≡ false
    → is_idle n.state ≡ false
    → (stays n ≡ not (is_edge n.state))
      × (events_of n
          ≡ (
            record { kind = effective_readiness n.state; token = slot n (token_write_pos n.state) },
            n.job,
          )
            ∷ [])
unfolding stays events_of
stays_ready n h g = ground (arith, h, g)

pub Turned-out :
    (q q' : Queue) (p : Ptr) (n : Node) (ns : List Ptr)
    → stays n ≡ false
    → IsQueue q' ns
    → FramesBut p q q'
    → (IsHanded n → Has q' p (handed_out n))
    → Turned q q' p n ns
Turned-out q q' p n ns out v frames handed = record {
  handed = handed;
  queue = rw (out, append-nil ns) v;
  frames = frames;
  spent = λ h. absurd (ground (arith, h, out));
}

-- What `deliver` does with a node that has been taken out, in each of the three cases.
module _ (q : Queue) (p : Ptr) (m : Node) (ns : List Ptr) (live : q.nodes p ≡ some m)
    (v : IsQueue q ns) (real : IsReal p) (apart : Apart p ns) (wf : IsNode m)
    (alive : is_dropped m.state ≡ false) (until : Ptr) (dst : Events) where
  abbrev next : ReadinessState
  next = polled_state m.state

  abbrev out : Queue
  out = store q p (record m { state = next })

  out-IsQueue : IsQueue out ns
  out-IsQueue = IsQueue-outside q ns p (some (record m { state = next })) v real apart

  out_frames : FramesBut p q out
  out_frames = outside_frames q p (some (record m { state = next }))

  abbrev pub Delivers : Type 0
  Delivers =
      (q' : Queue) × (deliver q p until m.state next dst
        ≡ ok (q', mark until p m, delivered dst (events_of m)))
      × Turned q q' p m ns

  found : (n : Node) → token n (token_read_pos next) ≡ ok (slot n (token_write_pos m.state))
  found n = rw (polled_state-token_read_pos m.state) (token_slot n (token_write_pos m.state) wf.pos)

  deliver-idle : is_idle m.state ≡ true → Delivers
  deliver-idle idle =
      let (gone, silent) = stays_idle m idle in
      let queued : is_queued next ≡ false =
        polled_state-is_queued m.state wf.queued ∙ ground (arith, idle) in
      (
        out,
        rw (gone, silent) (deliver_none q p until m next dst live queued idle),
        Turned-out q out p m ns gone out-IsQueue out_frames (λ h. absurd (ground (arith, idle, h))),
      )

  deliver-edge : is_idle m.state ≡ false → is_edge m.state ≡ true → Delivers
  deliver-edge ready edge =
      let (same, event) = stays_ready m alive ready in
      let gone : stays m ≡ false = same ∙ rw edge refl in
      let queued : is_queued next ≡ false =
        polled_state-is_queued m.state wf.queued ∙ ground (arith, edge) in
      let spent : Node = record m { state = next; job = noop } in
      (
        store out p spent,
        rw (gone, event)
            (deliver_once q p until m next dst (slot m (token_write_pos m.state)) live queued ready
              (found (record m { state = next }))),
        Turned-out q (store out p spent) p m ns gone
            (IsQueue-outside out ns p (some spent) out-IsQueue real apart)
            (λ j n ne has. outside_frames out p (some spent) j n ne (out_frames j n ne has))
            (λ h. (m.next_readiness, ground arith)),
      )

  deliver-level : is_idle m.state ≡ false → is_edge m.state ≡ false → Delivers
  deliver-level ready level =
      let (same, event) = stays_ready m alive ready in
      let kept : stays m ≡ true = same ∙ rw level refl in
      let queued : is_queued next ≡ true =
        polled_state-is_queued m.state wf.queued ∙ ground (arith, level, ready) in
      let there : Has out p (record m { state = next }) = (m.next_readiness, ground arith) in
      let (q2, done, v2, live2, same2) =
        enqueue_node-IsQueue out ns p out-IsQueue (record m { state = next }, there.1) real apart in
      let frames : Frames out q2 =
        subst (After (λ (r : Bool × Queue). Frames out r.1)) done
          (enqueue_node-Frames out p (inl (IsQueue-open out ns out-IsQueue))) in
      let (x, there2) = frames p (record m { state = next }) there in
      let m2 : Node = record m { state = next; next_readiness = x } in
      let q3 = store q2 p (record m2 { job = noop }) in
      (
        q3,
        rw (kept, event)
            (deliver_again q p until m next dst q2 m2 _ (slot m (token_write_pos m.state)) live
              queued ready done there2 (found m2)),
        record {
          queue =
              rw kept
                (IsQueue-stored q2 (ns ++ p ∷ []) p m2 (record m2 { job = noop }) v2 there2 refl);
          frames = λ j n ne has.
              outside_frames q2 p (some (record m2 { job = noop })) j n ne
                (frames j n (out_frames j n ne has));
          handed = λ h. absurd (ground (arith, level, h));
          spent = λ h. (record m2 { job = noop }, (x, ground arith), refl);
        },
      )

  pub deliver-Delivers : Delivers
  deliver-Delivers = elim (Bool-cases (is_idle m.state)) [
    | inl idle ↦ deliver-idle idle
    | inr ready ↦ elim (Bool-cases (is_edge m.state)) [
      | inl edge ↦ deliver-edge ready edge
      | inr level ↦ deliver-level ready level
    ]
  ]
