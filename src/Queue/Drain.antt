-- ===== src/Queue/Drain.antt =====
-- `ReadinessQueue::poll`, which turns queued nodes into events, and the queue's `drop`.
use sickle.Base.{
  ℕ, zero, suc, false, List, [], ◌∷◌, ◌==◌, ltb, not, ◌&&◌, if◌then◌else◌, length, Outcome, ok,
  out_of_fuel, ◌>>=◌,
}
use sickle.Event.{noop}
use sickle.ReadinessState
use sickle.ReadinessState.{ReadinessState}
use sickle.Ready
use sickle.Ready.{Ready}
use sickle.PollOpt
use sickle.Selector.{Events, push_event}
use sickle.Queue.Defs.{
  Ptr, null, closed_marker, token, Queue, node_at, empty, inconsistent, load, store, release_node,
  enqueue_node, clear_sleep_marker, dequeue_node,
}

-- The word that `poll` writes back for a state that is not dropped.
unfoldable pub polled_state : ReadinessState → ReadinessState
unfolding ReadinessState.effective_readiness ReadinessState.poll_opt ReadinessState.set_dequeued
    ReadinessState.disarm ReadinessState.update_token_read_pos PollOpt.is_edge PollOpt.is_oneshot
polled_state state =
    let idle = Ready.is_empty (ReadinessState.effective_readiness state) in
    let opt = ReadinessState.poll_opt state in
    let next =
      if PollOpt.is_edge opt
      then (let next = ReadinessState.set_dequeued state in
          if PollOpt.is_oneshot opt && not idle then ReadinessState.disarm next else next)
      else if idle
      then ReadinessState.set_dequeued state
      else state in
    ReadinessState.update_token_read_pos next

-- What the loop on the node's word ends with: the node was dropped, or the state that was read and the
-- state that was written.
pub data Settled : Type 0 where
  dropped : Settled
  settled : (read written : ReadinessState) → Settled

-- The loop on the word. `fails` lists the states that other threads put there before a
-- compare-exchange of this loop, which then fails and shows them.
unfoldable pub settle : ReadinessState → (fails : List ReadinessState) → Settled
unfolding polled_state ReadinessState.is_dropped
settle state [] =
    if ReadinessState.is_dropped state then dropped else settled state (polled_state state)
settle state (actual ∷ fails) =
    let again = settle actual fails in
    let done = settled state (polled_state state) in
    if ReadinessState.is_dropped state
    then dropped
    else if (polled_state state).bits == state.bits
    then done
    else again

-- The rest of a round, for a node that is not dropped.
unfoldable pub deliver :
    Queue
    → Ptr
    → (until : Ptr) → (read next : ReadinessState) → Events
    → Outcome (Queue × Ptr × Events)
unfolding ReadinessState.is_queued ReadinessState.effective_readiness ReadinessState.token_read_pos
    enqueue_node push_event
deliver q p until read next dst = do
  n ← load q p
  let q1 = store q p (record n { state = next })
  let readiness = ReadinessState.effective_readiness read
  let again = ReadinessState.is_queued next
  (_, q2) ← if again then enqueue_node q1 p else ok (false, q1)
  let until' = if again then (if until == null then p else until) else until
  if Ready.is_empty readiness then ok (q2, until', dst) else (do
    n2 ← load q2 p
    t ← token n2 (ReadinessState.token_read_pos next)
    ok (
      store q2 p (record n2 { job = noop }),
      until',
      push_event dst (record { kind = readiness; token = t }) n2.job,
    ))

-- The loop of `poll`, with no interference on the words. A round takes a node out, and hands it
-- in again only if it stays queued; the first such node ends the loop when it comes round.
unfoldable pub poll_loop : ℕ → Queue → (until : Ptr) → Events → Outcome (Queue × Events)
unfolding dequeue_node settle release_node deliver
poll_loop zero q until dst = out_of_fuel
poll_loop (suc fuel) q until dst =
    if ltb (length dst.entries) dst.capacity
    then (do
      (d, q1) ← dequeue_node q until
      elim d [
        | empty ↦ ok (q1, dst)
        | inconsistent ↦ ok (q1, dst)
        | node_at p ↦ (do
          n ← load q1 p
          elim (settle n.state []) [
            | dropped ↦ (do q2 ← release_node q1 p; poll_loop fuel q2 until dst)
            | settled read next ↦ (do
              (q2, until', dst') ← deliver q1 p until read next dst
              poll_loop fuel q2 until' dst')
          ])
      ])
    else ok (q, dst)

unfoldable pub poll : ℕ → Queue → Events → Outcome (Queue × Events)
unfolding clear_sleep_marker poll_loop
poll fuel q dst = do
  q1 ← if length dst.entries == dst.capacity then clear_sleep_marker q else ok q
  poll_loop fuel q1 null dst

-- `drop` of the queue: it is closed, and every node that is left is released.
unfoldable pub drop_loop : ℕ → Queue → Outcome Queue
unfolding dequeue_node release_node
drop_loop zero q = out_of_fuel
drop_loop (suc fuel) q = do
  (d, q1) ← dequeue_node q null
  elim d [
    | empty ↦ ok q1
    | inconsistent ↦ drop_loop fuel q1
    | node_at p ↦ (do q2 ← release_node q1 p; drop_loop fuel q2)
  ]

pub drop : ℕ → Queue → Outcome Queue
unfolding enqueue_node drop_loop
drop fuel q = do (_, q1) ← enqueue_node q closed_marker; drop_loop fuel q1
