-- ===== src/Poll/Tests.antt =====
-- Interrupted waits, and a poll while two nodes are handed in.
use sickle.Base.{
  ℕ, ◌+◌, ◌*◌, ◌≤◌, ◌≡◌, ◌⊎◌, refl, arith, Bool, false, none, some, List, [], ◌∷◌, ◌++◌, All, take,
  update, ok, IoResult, success, failure, ErrorKind,
}
use sickle.PollOpt
use sickle.ReadinessState.{is_queued, token_write_pos}
use sickle.Selector
use sickle.Selector.{EpollEvent, Events, with_capacity, len}
use sickle.Queue
use sickle.Queue.{
  Ptr, Node, Queue, marker, IsQueue, new-IsQueue, IsQueue-outside, IsNode, IsFull, Holds, events,
  staying, delivered,
}
use sickle.Awakener.{cleanup}
use sickle.Poll.Defs.{Poll, Waited, select_loop, poll2}
use sickle.Poll.Wait.{lefts, select_loop-lefts}
use sickle.Poll.Delivery.{selected, poll2-events}

abbrev start : Poll
start = record { selector = Selector.new 0; readiness_queue = Queue.new; selects = [] }

abbrev interrupted_for : ℕ → Waited
interrupted_for n = record { waited = failure ErrorKind.interrupted; elapsed = n }

abbrev two_waits : List Waited
two_waits = interrupted_for 3 ∷ interrupted_for 4 ∷ []

select_loop-lefts_example :
    (n : ℕ) × (r : IoResult Bool) × (p' : Poll) × (events' : Events) × (select_loop false
        (some 5)
        two_waits
        start
        (with_capacity 4)
      ≡ ok (r, p', events'))
    × (p'.selects ≡ lefts 5 (take n two_waits))
    × (p'.readiness_queue ≡ Queue.new)
select_loop-lefts_example =
    select_loop-lefts false 5 two_waits start (with_capacity 4) (omega arith) (omega arith)

-- An edge-triggered node that is readable and queued.
abbrev ready_node : Node
unfolding marker
ready_node = record marker {
  state = record { bits = 65_536 + PollOpt.edge.bits * 256 + 17 };
  job = 6;
}

abbrev contents : Ptr → Node
contents p = ready_node

abbrev with_nodes : Queue
with_nodes = record Queue.new {
  nodes = update (update Queue.new.nodes 10 (some ready_node)) 11 (some ready_node);
}

with_nodes-IsQueue : IsQueue with_nodes []
with_nodes-IsQueue =
    IsQueue-outside (record Queue.new { nodes = update Queue.new.nodes 10 (some ready_node) }) [] 11
      (some ready_node)
      (IsQueue-outside Queue.new [] 10 (some ready_node) new-IsQueue (omega arith) tt) (omega arith)
      tt

ready_node-IsNode : IsNode ready_node
unfolding is_queued token_write_pos marker
ready_node-IsNode = record { queued = refl; pos = omega arith }

with_nodes-Holds : All (Holds contents with_nodes) (10 ∷ 11 ∷ [])
unfolding Queue.new marker
with_nodes-Holds = (((0, refl), ready_node-IsNode), (((0, refl), ready_node-IsNode), tt))

abbrev both : Poll
both = record start { readiness_queue = with_nodes }

abbrev quiet : Waited
quiet = record { waited = success []; elapsed = 0 }

poll2-events_example :
    (done rest : List Ptr) × (q' : Queue) × (10 ∷ 11 ∷ [] ≡ done ++ rest)
    × ((fuel : ℕ)
        → 3 ≤ fuel
        → poll2 fuel false none
            (quiet ∷ [])
            (10 ∷ 11 ∷ [])
            (failure ErrorKind.would_block ∷ [])
            both
            (with_capacity 4)
          ≡ ok (
            success (len (delivered (selected both (with_capacity 4) []).1 (events contents done))),
            record both {
              selector = (selected both (with_capacity 4) []).0;
              readiness_queue = q';
              selects = none ∷ [];
            },
            delivered (selected both (with_capacity 4) []).1 (events contents done),
          ))
    × IsQueue q' (rest ++ staying contents done)
    × ((rest ≡ [])
        ⊎ IsFull (delivered (selected both (with_capacity 4) []).1 (events contents done)))
unfolding cleanup
poll2-events_example =
    poll2-events contents false none quiet [] (10 ∷ 11 ∷ []) [] (failure ErrorKind.would_block ∷ [])
      [] both (with_capacity 4) [] with_nodes-IsQueue with_nodes-Holds
      (omega arith, (omega arith, tt)) ((omega arith, tt), (tt, tt)) refl refl
