-- ===== src/Registration/Defs.antt =====
-- `RegistrationInner`, `Registration` and `SetReadiness` of src/poll.rs: the user's side of a node.
use sickle.Base.{
  ℕ, zero, suc, ◌+◌, true, false, Option, none, some, List, [], ◌∷◌, ◌==◌, ltb, not, ◌&&◌,
  if◌then◌else◌, Outcome, ok, panic, ◌>>=◌, unwrap, IoResult, success, failure, ErrorKind,
}
use sickle.Event.{TokenEntry, entry_eq, Job, noop}
use sickle.ReadinessState
use sickle.ReadinessState.{ReadinessState}
use sickle.Ready
use sickle.Ready.{Ready}
use sickle.PollOpt
use sickle.PollOpt.{PollOpt}
use sickle.Queue.{
  Ptr, Node, new_node, no_token, token, Queue, load, store, release_node, enqueue_node_with_wakeup,
}

-- `Registration::new2`: a node of no queue, with a reference for each handle. `p` is the address that
-- the allocator returns.
unfoldable pub new2 : Queue → Ptr → Queue
unfolding new_node
new2 q p = store q p (new_node 0 no_token Ready.empty PollOpt.empty 2)

-- `Registration::new`: the queue holds the third reference.
unfoldable pub new : Queue → Ptr → (queue : ℕ) → TokenEntry → Ready → PollOpt → Queue
unfolding new_node
new q p queue entry interest opt = store q p (new_node queue entry interest opt 3)

-- `readiness`
unfoldable pub readiness : Queue → Ptr → Outcome Ready
unfolding ReadinessState.readiness
readiness q p = do n ← load q p; ok (ReadinessState.readiness n.state)

-- The word that `set_readiness` writes.
unfoldable pub with_readiness : ReadinessState → Ready → ReadinessState
with_readiness state ready =
    let next = ReadinessState.set_readiness state ready in
    if Ready.is_empty (ReadinessState.effective_readiness next)
    then next
    else ReadinessState.set_queued next

-- The loop of `set_readiness`, where `fails` lists the words by which other threads make a
-- compare-exchange fail: the states before and after its own write, or `none` for a dropped node.
unfoldable pub readiness_loop :
    ReadinessState
    → Ready
    → (fails : List ReadinessState) → Option (ReadinessState × ReadinessState)
unfolding with_readiness ReadinessState.is_dropped
readiness_loop state ready [] =
    if ReadinessState.is_dropped state then none else some (state, with_readiness state ready)
readiness_loop state ready (actual ∷ fails) =
    let again = readiness_loop actual ready fails in
    if ReadinessState.is_dropped state then none else again

-- `ReadinessNode::enqueue_with_wakeup`
unfoldable pub enqueue_with_wakeup : Queue → Ptr → Outcome Queue
unfolding enqueue_node_with_wakeup
enqueue_with_wakeup q p = do
  n ← load q p
  if n.readiness_queue == 0 then ok q else enqueue_node_with_wakeup q p

-- `set_readiness`
unfoldable pub set_readiness : Queue → Ptr → Ready → List ReadinessState → Outcome Queue
unfolding readiness_loop enqueue_with_wakeup ReadinessState.is_queued
set_readiness q p ready fails = do
  n ← load q p
  elim (readiness_loop n.state ready fails) [
    | none ↦ ok q
    | some (state, next) ↦
        let q1 = store q p (record n { state = next }) in
        if not (ReadinessState.is_queued state) && ReadinessState.is_queued next
        then enqueue_with_wakeup q1 p
        else ok q1
  ]

-- `*self.token_i.get() = token`
abbrev pub set_token : Node → ℕ → TokenEntry → Outcome Node
set_token n zero entry = ok (record n { token_0 = entry })
set_token n (suc zero) entry = ok (record n { token_1 = entry })
set_token n (suc (suc zero)) entry = ok (record n { token_2 = entry })
set_token n _ entry = panic

-- The word that `update` writes.
unfoldable pub updated_state : ReadinessState → ℕ → Ready → PollOpt → ReadinessState
updated_state state pos interest opt =
    let next =
      ReadinessState.set_poll_opt
        (ReadinessState.set_interest (ReadinessState.set_token_write_pos state pos) interest) opt in
    if Ready.is_empty (ReadinessState.effective_readiness next)
    then next
    else ReadinessState.set_queued next

-- The loop of `update`: the last state that it read.
unfoldable pub update_loop : ReadinessState → (fails : List ReadinessState) → ReadinessState
update_loop state [] = state
update_loop state (actual ∷ fails) = update_loop actual fails

-- The part of `update` under the update lock. `fails` is as above.
unfoldable pub update_node :
    Queue → Ptr → Node → TokenEntry → Ready → PollOpt → Job → List ReadinessState → Outcome Queue
unfolding ReadinessState.token_write_pos ReadinessState.next_token_pos ReadinessState.is_queued
    updated_state update_loop enqueue_node_with_wakeup
update_node q p n entry interest opt job fails = do
  let pos = ReadinessState.token_write_pos n.state
  curr_token ← token n pos
  (next_pos, n1) ← if entry_eq entry curr_token then ok (pos, n) else (do
    next_pos ← unwrap (ReadinessState.next_token_pos n.state)
    n1 ← set_token n next_pos entry
    ok (next_pos, n1))
  let state = update_loop n1.state fails
  let next = updated_state state next_pos interest opt
  let n2 : Node = record n1 { state = next; update_lock = false }
  if not (ReadinessState.is_queued state) && ReadinessState.is_queued next
      then enqueue_node_with_wakeup (store q p (record n2 { job = job })) p
      else ok (store q p n2)

-- `update`, called with the queue of the `Poll`, `other`. A node of no queue joins this one.
unfoldable pub update_with :
    Queue
    → Ptr
    → (other : ℕ) → TokenEntry
    → Ready
    → PollOpt
    → Job
    → List ReadinessState
    → Outcome (IoResult Queue)
unfolding update_node
update_with q p other entry interest opt job fails = do
  n ← load q p
  let fresh = n.readiness_queue == 0
  let n1 : Node =
      if fresh then record n { readiness_queue = other; ref_count = n.ref_count + 1 } else n
  if n1.readiness_queue == other
      then (if n1.update_lock then ok (success (store q p n1)) else (do
        q1 ←
            update_node (store q p (record n1 { update_lock = true })) p
              (record n1 { update_lock = true }) entry interest opt job fails
        ok (success q1)))
      else ok (failure ErrorKind.other)

-- `Registration::register`, `reregister` and `deregister`.
unfoldable pub register :
    Queue
    → Ptr
    → (poll : ℕ) → TokenEntry
    → Ready
    → PollOpt
    → Job
    → List ReadinessState
    → Outcome (IoResult Queue)
unfolding update_with
register q p poll entry interest opts job fails = update_with q p poll entry interest opts job fails

pub reregister :
    Queue
    → Ptr
    → (poll : ℕ) → TokenEntry
    → Ready
    → PollOpt
    → List ReadinessState
    → Outcome (IoResult Queue)
unfolding update_with
reregister q p poll entry interest opts fails = update_with q p poll entry interest opts noop fails

pub deregister : Queue → Ptr → (poll : ℕ) → List ReadinessState → Outcome (IoResult Queue)
unfolding update_with
deregister q p poll fails = update_with q p poll no_token Ready.empty PollOpt.empty noop fails

-- `RegistrationInner::clone`; more than `isize::MAX` references abort the process.
unfoldable pub clone : Queue → Ptr → Outcome Queue
clone q p = do
  n ← load q p
  if ltb n.ref_count 0x8000_0000_0000_0000
      then ok (store q p (record n { ref_count = n.ref_count + 1 }))
      else panic

-- Dropping a `Registration` flags the node and hands it to the queue, and then drops the inner handle.
unfoldable pub drop : Queue → Ptr → Outcome Queue
unfolding ReadinessState.flag_as_dropped enqueue_with_wakeup release_node
drop q p = do
  n ← load q p
  let (state, first) = ReadinessState.flag_as_dropped n.state
  let q1 = store q p (record n { state = state })
  q2 ← if first then enqueue_with_wakeup q1 p else ok q1
  release_node q2 p
