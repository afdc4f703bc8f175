-- ===== src/Queue/Tests.antt =====
-- A queue with two nodes in its heap.
use sickle.Base.{
  Outcome, ◌>>=◌, map, ℕ, ◌+◌, ◌*◌, ◌≤◌, ◌⊎◌, ◌++◌, ◌==◌, if◌then◌else◌, All, ◌≡◌, refl, inl, true,
  false, none, some, List, [], ◌∷◌, ok, update, arith,
}
use sickle.Event.{Job, JobEntry}
use sickle.PollOpt
use sickle.ReadinessState.{is_queued, token_write_pos}
use sickle.Queue.Defs.{Ptr, Node, Queue, new, marker, end_marker}
use sickle.Selector.{Events, with_capacity}
use sickle.Queue.Drain.{poll}
use sickle.Queue.Deliver.{delivered}
use sickle.Queue.Nodes.{IsFull, events, staying, Holds, IsSpent}
use sickle.Queue.Pass.{poll-events}
use sickle.Queue.Fifo.{IsQueue, marked}
use sickle.Queue.Refines.{
  Op, put, take, sleep, wakes, took, sleeps, Fifo, run, expected, expected_run, AreFor, Refines,
  run-Refines,
}

abbrev two_nodes : Queue
two_nodes = record new { nodes = update (update new.nodes 10 (some marker)) 11 (some marker) }

abbrev idle : Fifo
idle = record { waiting = []; asleep = false }

two_nodes-Refines : Refines two_nodes idle
unfolding new marker
two_nodes-Refines = record {
  queue = record {
    shape = marked (inl refl) (record { node = marker; live = refl; leads = refl }, refl);
    real = tt;
    distinct = tt;
    end_live = (marker, refl);
    sleep_live = (marker, refl);
  };
  sleeper = refl;
}

abbrev in_and_out : List Op
in_and_out = sleep ∷ put 10 ∷ put 11 ∷ take ∷ put 10 ∷ take ∷ sleep ∷ take ∷ take ∷ []

in_and_out-AreFor : AreFor two_nodes idle in_and_out
unfolding AreFor new expected
in_and_out-AreFor = (
  tt,
  (
    ((marker, refl), omega arith, tt),
    (
      ((marker, refl), omega arith, (omega arith, tt)),
      (tt, (((marker, refl), omega arith, (omega arith, tt)), (tt, (tt, (tt, (tt, tt)))))),
    ),
  ),
)

expected_run-in_and_out :
    (expected_run idle in_and_out).0
    ≡ sleeps true
      ∷ wakes true
      ∷ wakes false
      ∷ took (some 10)
      ∷ wakes false
      ∷ took (some 11)
      ∷ sleeps false
      ∷ took (some 10)
      ∷ took none
      ∷ []
unfolding expected_run
expected_run-in_and_out = refl

run-Refines_example :
    (q' : Queue) × (run two_nodes in_and_out ≡ ok ((expected_run idle in_and_out).0, q'))
    × Refines q' (expected_run idle in_and_out).1
run-Refines_example = run-Refines two_nodes idle in_and_out two_nodes-Refines in_and_out-AreFor

-- A level-triggered node and an edge-triggered one, both readable and queued.
abbrev level_node : Node
unfolding marker
level_node = record marker {
  state = record { bits = 65_536 + PollOpt.level.bits * 256 + 17 };
  job = 5;
}

abbrev edge_node : Node
unfolding marker
edge_node = record marker {
  state = record { bits = 65_536 + PollOpt.edge.bits * 256 + 17 };
  job = 6;
}

abbrev contents : Ptr → Node
contents p = if p == 10 then level_node else edge_node

abbrev waiting_two : Queue
waiting_two = record new {
  nodes =
      update
        (update (update new.nodes end_marker (some (record marker { next_readiness = 10 }))) 10
          (some (record level_node { next_readiness = 11 })))
        11 (some edge_node);
  head_readiness = 11;
}

waiting_two-IsQueue : IsQueue waiting_two (10 ∷ 11 ∷ [])
unfolding new marker
waiting_two-IsQueue = record {
  shape = marked (inl refl) (
    record { node = record marker { next_readiness = 10 }; live = refl; leads = refl },
    (
      record { node = record level_node { next_readiness = 11 }; live = refl; leads = refl },
      (record { node = edge_node; live = refl; leads = refl }, refl),
    ),
  );
  real = (omega arith, (omega arith, tt));
  distinct = ((omega arith, tt), (tt, tt));
  end_live = (record marker { next_readiness = 10 }, refl);
  sleep_live = (marker, refl);
}

waiting_two-Holds : All (Holds contents waiting_two) (10 ∷ 11 ∷ [])
unfolding new marker is_queued token_write_pos
waiting_two-Holds = (
  ((11, refl), record { queued = refl; pos = omega arith }),
  (((0, refl), record { queued = refl; pos = omega arith }), tt),
)

abbrev room_for_two : Events
room_for_two = with_capacity 2

poll-events_example :
    (done rest : List Ptr) × (q' : Queue) × (10 ∷ 11 ∷ [] ≡ done ++ rest)
    × ((fuel : ℕ)
        → 3 ≤ fuel
        → poll fuel waiting_two room_for_two
          ≡ ok (q', delivered room_for_two (events contents done)))
    × IsQueue q' (rest ++ staying contents done)
    × ((rest ≡ []) ⊎ IsFull (delivered room_for_two (events contents done)))
    × All (IsSpent q') (staying contents done)
poll-events_example =
    poll-events contents waiting_two (10 ∷ 11 ∷ []) room_for_two waiting_two-IsQueue
      waiting_two-Holds

polled_jobs : Outcome (List Job)
unfolding poll
polled_jobs = do
  (q1, dst) ← poll 3 waiting_two room_for_two
  (q2, dst2) ← poll 3 q1 room_for_two
  ok (map (λ (e : JobEntry). e.job) (dst.entries ++ dst2.entries))

-- The second poll delivers the level-triggered node again, with the job that does nothing.
polled_jobs_run : polled_jobs ≡ ok (5 ∷ 6 ∷ 0 ∷ [])
unfolding polled_jobs new
polled_jobs_run = refl
