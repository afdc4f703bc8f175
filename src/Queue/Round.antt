-- ===== src/Queue/Round.antt =====
-- One round of the loop of `ReadinessQueue::poll`, src/poll.rs.
use sickle.Base.{
  ℕ, suc, ◌≡◌, ◌≢◌, refl, subst, inl, inr, true, false, some, List, [], ◌∷◌, ltb, update, arith,
  length, ok, After, Bool-cases,
}
use sickle.ReadinessState.{ReadinessState, is_dropped}
use sickle.Queue.Defs.{Ptr, Node, Queue, Dequeue, node_at, release_node, dequeue_node}
use sickle.Queue.Drain.{polled_state, dropped, settled, settle, deliver, poll_loop}
use sickle.Selector.{Events}
use sickle.Queue.Fifo.{IsQueue}
use sickle.Queue.Dequeue.{dequeue_node-cons}
use sickle.Queue.Frame.{Has, Frames, dequeue_node-Frames, IsQueue-outside}
use sickle.Queue.Deliver.{
  events_of, stays, IsNode, delivered, mark, Turned, Turned-out, outside_frames, release_node_lem,
  stays_dropped, deliver-Delivers,
}

settle_alive :
    (s : ReadinessState) → is_dropped s ≡ false → settle s [] ≡ settled s (polled_state s)
unfolding settle
settle_alive s h = rw h refl

settle_dropped : (s : ReadinessState) → is_dropped s ≡ true → settle s [] ≡ dropped
unfolding settle
settle_dropped s h = rw h refl

module _ (q q1 : Queue) (p until : Ptr) (m : Node) (dst : Events) where
  abbrev Takes : Type 0
  Takes =
      (ltb (length dst.entries) dst.capacity ≡ true)
      × (dequeue_node q until ≡ ok (node_at p, q1))
      × (q1.nodes p ≡ some m)

  poll_loop_alive :
      (q2 : Queue) (until' : Ptr) (dst' : Events)
      → Takes
      → is_dropped m.state ≡ false
      → deliver q1 p until m.state (polled_state m.state) dst ≡ ok (q2, until', dst')
      → (fuel : ℕ) → poll_loop (suc fuel) q until dst ≡ poll_loop fuel q2 until' dst'
  unfolding poll_loop
  poll_loop_alive q2 until' dst' takes alive done fuel =
      ground (arith, takes, settle_alive m.state alive, done)

  poll_loop_dropped :
      (q2 : Queue)
      → Takes
      → is_dropped m.state ≡ true
      → release_node q1 p ≡ ok q2
      → (fuel : ℕ) → poll_loop (suc fuel) q until dst ≡ poll_loop fuel q2 until dst
  unfolding poll_loop
  poll_loop_dropped q2 takes dead done fuel =
      ground (arith, takes, settle_dropped m.state dead, done)

-- One round, for a queue whose first node is not the mark at which to stop.
pub poll_loop-Turned :
    (q : Queue) (p until : Ptr) (n : Node) (ns : List Ptr) (dst : Events)
    → IsQueue q (p ∷ ns)
    → Has q p n
    → IsNode n
    → p ≢ until
    → ltb (length dst.entries) dst.capacity ≡ true
    → (q' : Queue) × ((fuel : ℕ)
        → poll_loop (suc fuel) q until dst
          ≡ poll_loop fuel q' (mark until p n) (delivered dst (events_of n)))
      × Turned q q' p n ns
unfolding stays events_of
poll_loop-Turned q p until n ns dst v has wf ne room =
    let (q1, done, v1, _, _) = dequeue_node-cons q p until ns v ne in
    let frames : Frames q q1 =
      subst (After (λ (r : Dequeue × Queue). Frames q r.1)) done (dequeue_node-Frames q until) in
    let (x, live) = frames p n has in
    let m : Node = record n { next_readiness = x } in
    let wf' : IsNode m = record { queued = wf.queued; pos = wf.pos } in
    elim (Bool-cases (is_dropped n.state)) [
      | inl dead ↦
          let (o, freed) = release_node_lem q1 p m live in
          let q2 : Queue = record q1 { nodes = update q1.nodes p o } in
          let (out, silent) = stays_dropped n dead in
          (
            q2,
            λ fuel.
                rw (out, silent)
                  (poll_loop_dropped q q1 p until m dst q2 (room, done, live) dead freed fuel),
            Turned-out q q2 p n ns out (IsQueue-outside q1 ns p o v1 v.real.0 v.distinct.0)
                (λ j k other h. outside_frames q1 p o j k other (frames j k h))
                (λ h. absurd (ground (arith, dead, h))),
          )
      | inr alive ↦
          let (q2, given, turned) =
            deliver-Delivers q1 p m ns live v1 v.real.0 v.distinct.0 wf' alive until dst in
          (
            q2,
            poll_loop_alive q q1 p until m dst q2 _ _ (room, done, live) alive given,
            record {
              queue = turned.queue;
              frames = λ j k other h. turned.frames j k other (frames j k h);
              spent = turned.spent;
              handed = turned.handed;
            },
          )
    ]
