-- ===== src/EventLoop/Enqueue.antt =====
-- `enqueue_job` of src/net/event_loop.rs: the node of a job joins those that wait.
use sickle.Base.{
  ℕ, ◌+◌, ◌*◌, ◌≡◌, refl, ap, ◌∙◌, true, false, List, [], ◌∷◌, ◌++◌, ◌==◌, some, Outcome, ok, panic,
  out_of_fuel, ◌>>=◌, arith, IoResult, success, failure,
}
use sickle.Event.{Job}
use sickle.Ready
use sickle.PollOpt
use sickle.ReadinessState
use sickle.Queue.{
  Ptr, Node, Queue, no_token, store, enqueue_node_with_wakeup, IsQueue, IsReal, Apart, Has, IsNode,
  FramesBut, IsQueue-outside, enqueue_node_with_wakeup-IsQueue, events_of, stays,
}
use sickle.Registration
use sickle.EventLoop.Jobs.{job_entry, enqueue_job}

-- The node of a job when it is handed in.
abbrev pub job_node : ℕ → Job → Node
job_node poll job = record {
  state = record { bits = 16_384 + 65_536 + PollOpt.edge.bits * 256 + 17 };
  token_0 = no_token;
  token_1 = job_entry;
  token_2 = no_token;
  next_readiness = 0;
  update_lock = false;
  readiness_queue = poll;
  ref_count = 3;
  job = job;
}

-- The node when it is made, when its readiness is set, and under the lock of `update`.
abbrev made : Node
made = record {
  state = record { bits = 0 };
  token_0 = no_token;
  token_1 = no_token;
  token_2 = no_token;
  next_readiness = 0;
  update_lock = false;
  readiness_queue = 0;
  ref_count = 2;
  job = 0;
}

abbrev set : Node
set = record made { state = record { bits = 1 } }

abbrev locked : ℕ → Node
locked poll = record set { readiness_queue = poll; ref_count = 3; update_lock = true }

-- The heap with the node of a job.
abbrev staged : Queue → Ptr → ℕ → Job → Queue
staged q p poll job =
    store (store (store (store q p made) p set) p (locked poll)) p (job_node poll job)

ready_set :
    (q : Queue) (p : Ptr)
    → Registration.set_readiness (Registration.new2 q p) p Ready.readable []
      ≡ ok (store (store q p made) p set)
unfolding Registration.set_readiness Registration.new2 ReadinessState.effective_readiness
    ReadinessState.set_readiness
ready_set q p = let same : (p == p) ≡ true = ground arith in rw same refl

registered :
    (q : Queue) (p : Ptr) (poll : ℕ) (job : Job)
    → Registration.register
        (store (store q p made) p set)
        p
        poll
        job_entry
        Ready.readable
        PollOpt.edge
        job
        []
      ≡ (do q1 ← enqueue_node_with_wakeup (staged q p poll job) p; ok (success q1))
unfolding Registration.register ReadinessState.effective_readiness ReadinessState.set_poll_opt
    ReadinessState.set_interest ReadinessState.set_token_write_pos ReadinessState.set_queued
registered q p poll job =
    let same : (p == p) ≡ true = ground arith in
    let same' : (poll == poll) ≡ true = ground arith in rw (same, same') refl

unwrapped : IoResult Queue → Outcome Queue
unwrapped (success q) = ok q
unwrapped (failure e) = panic

bind-unwrapped : (m : Outcome Queue) → (do r ← (do q ← m; ok (success q)); unwrapped r) ≡ m
unfolding unwrapped
bind-unwrapped (ok q) = refl
bind-unwrapped panic = refl
bind-unwrapped out_of_fuel = refl

enqueue_job-enqueue :
    (q : Queue) (p : Ptr) (poll : ℕ) (job : Job)
    → enqueue_job q p poll job ≡ enqueue_node_with_wakeup (staged q p poll job) p
unfolding enqueue_job unwrapped
enqueue_job-enqueue q p poll job =
    ap
      (λ (m : Outcome Queue). do
        q1 ← m
        r ← Registration.register q1 p poll job_entry Ready.readable PollOpt.edge job []
        unwrapped r)
      (ready_set q p)
    ∙ ap (λ (m : Outcome (IoResult Queue)). do r ← m; unwrapped r) (registered q p poll job)
    ∙ bind-unwrapped (enqueue_node_with_wakeup (staged q p poll job) p)

staged-IsQueue :
    (q : Queue) (ws : List Ptr) (p : Ptr) (poll : ℕ) (job : Job)
    → IsQueue q ws
    → IsReal p
    → Apart p ws
    → IsQueue (staged q p poll job) ws
staged-IsQueue q ws p poll job v real apart =
    let q1 = store q p made in
    let q2 = store q1 p set in
    let q3 = store q2 p (locked poll) in
    IsQueue-outside q3 ws p (some (job_node poll job))
      (IsQueue-outside q2 ws p (some (locked poll))
        (IsQueue-outside q1 ws p (some set) (IsQueue-outside q ws p (some made) v real apart) real
          apart)
        real apart)
      real apart

staged_frames : (q : Queue) (p : Ptr) (poll : ℕ) (job : Job) → FramesBut p q (staged q p poll job)
staged_frames q p poll job j n ne (next, there) = (next, ground (arith, ne, there))

-- A job joins the nodes that wait.
pub enqueue_job-IsQueue :
    (q : Queue) (ws : List Ptr) (p : Ptr) (poll : ℕ) (job : Job)
    → IsQueue q ws
    → IsReal p
    → Apart p ws
    → (q' : Queue) × (enqueue_job q p poll job ≡ ok q')
      × IsQueue q' (ws ++ p ∷ [])
      × FramesBut p q q'
      × Has q' p (job_node poll job)
enqueue_job-IsQueue q ws p poll job v real apart =
    let there : Has (staged q p poll job) p (job_node poll job) = (0, ground arith) in
    let (q', done, v', frames) =
      enqueue_node_with_wakeup-IsQueue (staged q p poll job) ws p (job_node poll job)
        (staged-IsQueue q ws p poll job v real apart) there real apart in
    (
      q',
      enqueue_job-enqueue q p poll job ∙ done,
      v',
      λ j n ne has. frames j n (staged_frames q p poll job j n ne has),
      frames p (job_node poll job) there,
    )

pub job_node-IsNode : (poll : ℕ) (job : Job) → IsNode (job_node poll job)
unfolding ReadinessState.is_queued ReadinessState.token_write_pos
job_node-IsNode poll job = record { queued = refl; pos = omega arith }

-- A job is one event, and its node does not stay.
pub job_node-events_of :
    (poll : ℕ) (job : Job)
    → (events_of (job_node poll job)
        ≡ (record { kind = Ready.readable; token = job_entry }, job) ∷ [])
      × (stays (job_node poll job) ≡ false)
unfolding events_of stays PollOpt.is_edge ReadinessState.poll_opt
job_node-events_of poll job = (refl, refl)
