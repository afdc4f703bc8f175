-- ===== src/Queue/Defs.antt =====
-- The readiness queue of src/poll.rs: nodes on a heap, linked through `next_readiness`. An operation
-- runs on its own here, so the compare-exchanges on the two ends of the queue succeed.
use sickle.Base.{
  ℕ, zero, suc, ◌+◌, ◌-◌, Bool, true, false, Option, none, some, ◌==◌, ◌||◌, if◌then◌else◌, Outcome,
  ok, panic, ◌>>=◌, unwrap, update,
}
use sickle.Event.{TokenType, TokenEntry, Job, noop}
use sickle.ReadinessState
use sickle.ReadinessState.{ReadinessState}
use sickle.Ready
use sickle.Ready.{Ready}
use sickle.PollOpt
use sickle.PollOpt.{PollOpt}

-- `*mut ReadinessNode`
abbrev pub Ptr : Type 0
Ptr = ℕ

abbrev pub null : Ptr
null = 0

-- The addresses of the three markers of the queue.
abbrev pub end_marker : Ptr
end_marker = 1

abbrev pub sleep_marker : Ptr
sleep_marker = 2

abbrev pub closed_marker : Ptr
closed_marker = 3

-- `readiness_queue` is 0 for no queue, or the identity of the queue's `Arc`.
pub record Node : Type 0 where
  pub state : ReadinessState
  pub token_0 : TokenEntry
  pub token_1 : TokenEntry
  pub token_2 : TokenEntry
  pub next_readiness : Ptr
  pub update_lock : Bool
  pub readiness_queue : ℕ
  pub ref_count : ℕ
  pub job : Job

abbrev pub no_token : TokenEntry
no_token = record { ttype = TokenType.token_event; token = record { id = 0 } }

-- `ReadinessNode::new`
unfoldable pub new_node : ℕ → TokenEntry → Ready → PollOpt → ℕ → Node
unfolding ReadinessState.new
new_node queue token interest opt ref_count = record {
  state = ReadinessState.new interest opt;
  token_0 = token;
  token_1 = no_token;
  token_2 = no_token;
  next_readiness = null;
  update_lock = false;
  readiness_queue = queue;
  ref_count = ref_count;
  job = noop;
}

-- `ReadinessNode::marker`
unfoldable pub marker : Node
unfolding new_node
marker = new_node 0 no_token Ready.empty PollOpt.empty 0

-- `token(node, pos)`; a position above 2 is `unreachable!()`.
abbrev pub token : Node → ℕ → Outcome TokenEntry
token node zero = ok node.token_0
token node (suc zero) = ok node.token_1
token node (suc (suc zero)) = ok node.token_2
token node _ = panic

-- A node that is not there has been freed: to read it is a fault, here `panic`.
pub record Queue : Type 0 where
  pub nodes : Ptr → Option Node
  pub head_readiness : Ptr
  pub tail_readiness : Ptr
  pub wakeups : ℕ

pub data Dequeue : Type 0 where
  node_at : Ptr → Dequeue
  empty : Dequeue
  inconsistent : Dequeue

abbrev pub load : Queue → Ptr → Outcome Node
load q p = unwrap (q.nodes p)

abbrev pub store : Queue → Ptr → Node → Queue
store q p n = record q { nodes = update q.nodes p (some n) }

unfoldable pub next_of : Queue → Ptr → Outcome Ptr
next_of q p = do n ← load q p; ok n.next_readiness

unfoldable pub set_next : Queue → Ptr → Ptr → Outcome Queue
set_next q p next = do n ← load q p; ok (store q p (record n { next_readiness = next }))

-- `ReadinessQueue::new`
unfoldable pub new : Queue
unfolding marker
new = record {
  nodes = λ p.
      if (p == end_marker) || (p == sleep_marker) || (p == closed_marker)
      then some marker
      else none;
  head_readiness = end_marker;
  tail_readiness = end_marker;
  wakeups = 0;
}

-- `release_node`: the last reference frees the node. The reference of the node to its queue, an `Arc`,
-- is not counted here.
unfoldable pub release_node : Queue → Ptr → Outcome Queue
release_node q p = do
  n ← load q p
  if n.ref_count == 1
      then ok (record q { nodes = update q.nodes p none })
      else ok (store q p (record n { ref_count = n.ref_count - 1 }))

-- `enqueue_node`: whether the consumer sleeps and has to be woken.
unfoldable pub enqueue_node : Queue → Ptr → Outcome (Bool × Queue)
unfolding set_next release_node
enqueue_node q p = do
  q1 ← set_next q p null
  let prev = q1.head_readiness
  if prev == closed_marker
      then (if p == end_marker then ok (false, q1) else (do q2 ← release_node q1 p; ok (false, q2)))
      else (do
        q2 ← set_next (record q1 { head_readiness = p }) prev p
        ok (prev == sleep_marker, q2))

-- `enqueue_node_with_wakeup`, where writing to the awakener's pipe succeeds.
unfoldable pub enqueue_node_with_wakeup : Queue → Ptr → Outcome Queue
unfolding enqueue_node
enqueue_node_with_wakeup q p = do
  (asleep, q1) ← enqueue_node q p
  ok (if asleep then record q1 { wakeups = q1.wakeups + 1 } else q1)

unfoldable pub clear_sleep_marker : Queue → Outcome Queue
unfolding set_next
clear_sleep_marker q =
    if q.tail_readiness == sleep_marker
    then (do
      q1 ← set_next q end_marker null
      ok (
          if q1.head_readiness == sleep_marker
          then record q1 { head_readiness = end_marker; tail_readiness = end_marker }
          else q1))
    else ok q

abbrev pub is_marker : Ptr → Bool
is_marker p = (p == end_marker) || (p == sleep_marker) || (p == closed_marker)

-- `dequeue_node` from where `tail` is the node to hand out and `next` its successor.
unfoldable pub take_tail : Queue → (tail next until : Ptr) → Outcome (Dequeue × Queue)
unfolding enqueue_node next_of
take_tail q tail next until =
    if tail == until
    then ok (empty, q)
    else if next == null
    then (if q.head_readiness == tail
        then (do
          (_, q1) ← enqueue_node q end_marker
          next' ← next_of q1 tail
          ok (
              if next' == null
              then (inconsistent, q1)
              else (node_at tail, record q1 { tail_readiness = next' })))
        else ok (inconsistent, q))
    else ok (node_at tail, record q { tail_readiness = next })

unfoldable pub dequeue_node : Queue → (until : Ptr) → Outcome (Dequeue × Queue)
unfolding next_of clear_sleep_marker take_tail
dequeue_node q until = do
  let tail = q.tail_readiness
  next ← next_of q tail
  if is_marker tail
      then (if next == null then (do q1 ← clear_sleep_marker q; ok (empty, q1)) else (do
        next' ← next_of q next
        take_tail (record q { tail_readiness = next }) next next' until))
      else take_tail q tail next until

-- `prepare_for_sleep`: whether the consumer may block.
unfoldable pub prepare_for_sleep : Queue → Outcome (Bool × Queue)
unfolding set_next
prepare_for_sleep q =
    if q.tail_readiness == sleep_marker
    then ok (q.head_readiness == sleep_marker, q)
    else if q.tail_readiness == end_marker
    then (do
      q1 ← set_next q sleep_marker null
      ok (
          if q1.head_readiness == end_marker
          then (true, record q1 { head_readiness = sleep_marker; tail_readiness = sleep_marker })
          else (false, q1)))
    else ok (false, q)
