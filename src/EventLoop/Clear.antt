-- ===== src/EventLoop/Clear.antt =====
-- What `events.clear()` of src/net/event_loop.rs does with the nodes of the jobs that have run.
use sickle.Base.{
  ℕ, suc, ◌≡◌, ◌≢◌, refl, sym, ◌∙◌, true, some, Option, List, [], ◌∷◌, ◌++◌, append_assoc,
  append-nil, All, map, ok, ◌>>=◌, arith,
}
use sickle.Event.{JobEntry, Job}
use sickle.Ready
use sickle.ReadinessState.{flag_as_dropped}
use sickle.Queue.{
  Ptr, Node, Queue, store, release_node, enqueue_node_with_wakeup, Distinct, Distinct-middle,
  IsQueue, IsReal, Apart, Has, FramesBut, IsQueue-outside, IsQueue-stored, outside_frames,
  handed_out, polled_state, enqueue_node_with_wakeup-IsQueue,
}
use sickle.Registration
use sickle.EventLoop.Jobs.{job_entry, clear_events}
use sickle.EventLoop.Enqueue.{job_node}

drop-enqueue :
    (q q2 : Queue) (p : Ptr) (n : Node)
    → q.nodes p ≡ some n
    → (flag_as_dropped n.state).1 ≡ true
    → n.readiness_queue ≢ 0
    → enqueue_node_with_wakeup (store q p (record n { state = (flag_as_dropped n.state).0 })) p
      ≡ ok q2
    → Registration.drop q p ≡ release_node q2 p
unfolding Registration.drop
drop-enqueue q q2 p n live first joined enqueued = ground (arith, live, first, joined, enqueued)

release_node-store :
    (q : Queue) (p : Ptr) (n : Node) (k : ℕ)
    → q.nodes p ≡ some n
    → n.ref_count ≡ suc (suc k)
    → release_node q p ≡ ok (store q p (record n { ref_count = suc k }))
unfolding release_node
release_node-store q p n k live count = ground (arith, live, count)

flagged_first :
    (poll : ℕ) (job : Job) → (flag_as_dropped (handed_out (job_node poll job)).state).1 ≡ true
unfolding flag_as_dropped polled_state
flagged_first poll job = refl

-- The handles of a node that was handed out are dropped: the node waits again.
drop_handles :
    (q : Queue) (ws : List Ptr) (p : Ptr) (poll : ℕ) (job : Job)
    → IsQueue q ws
    → Has q p (handed_out (job_node poll job))
    → IsReal p
    → Apart p ws
    → poll ≢ 0
    → (q' : Queue) × ((do q1 ← Registration.drop q p; release_node q1 p) ≡ ok q')
      × IsQueue q' (ws ++ p ∷ [])
      × FramesBut p q q'
drop_handles q ws p poll job v (x, there) real apart joined =
    let n = handed_out (job_node poll job) in
    let state = (flag_as_dropped n.state).0 in
    let n1 : Node = record n { state = state; next_readiness = x } in
    let q1 = store q p n1 in
    let v1 = IsQueue-outside q ws p (some n1) v real apart in
    let (q2, enqueued, v2, frames) =
      enqueue_node_with_wakeup-IsQueue q1 ws p n1 v1 (x, ground arith) real apart in
    let (y, there2) = frames p n1 (x, ground arith) in
    let n2 : Node = record n1 { next_readiness = y } in
    let n3 : Node = record n2 { ref_count = 2 } in
    let n4 : Node = record n2 { ref_count = 1 } in
    let q3 = store q2 p n3 in
    let q4 = store q3 p n4 in
    let v3 = IsQueue-stored q2 (ws ++ p ∷ []) p n2 n3 v2 there2 refl in
    let there3 : q3.nodes p ≡ some n3 = ground arith in
    let dropped : Registration.drop q p ≡ ok q3 =
      drop-enqueue q q2 p (record n { next_readiness = x }) there (flagged_first poll job) joined
        enqueued
      ∙ release_node-store q2 p n2 1 there2 refl in
    (
      q4,
      rw dropped (release_node-store q3 p n3 0 there3 refl),
      IsQueue-stored q3 (ws ++ p ∷ []) p n3 n4 v3 there3 refl,
      λ j k ne has. outside_frames q3 p (some n4) j k ne (
          outside_frames q2 p (some n3) j k ne
            (frames j k (outside_frames q p (some n1) j k ne has))),
    )

module _ (poll : ℕ) (closure : Ptr → Job) (owned : Job → Option Ptr) where
  -- What the poll gives for a job.
  abbrev entry_of : Ptr → JobEntry
  entry_of p = record { token_entry = job_entry; job = closure p; ready = Ready.empty }

  -- The node of a job that has been handed out.
  abbrev pub Ran : Queue → Ptr → Type 0
  Ran q p = Has q p (handed_out (job_node poll (closure p)))

  Ran-frames :
      (q q' : Queue) (p : Ptr) (ps : List Ptr)
      → FramesBut p q q'
      → Apart p ps
      → All (Ran q) ps
      → All (Ran q') ps
  Ran-frames q q' p [] frames apart h = tt
  Ran-frames q q' p (x ∷ ps) frames apart h = (
    frames x (handed_out (job_node poll (closure x))) (λ e. apart.0 (sym e)) h.0,
    Ran-frames q q' p ps frames apart.1 h.1,
  )

  clear_events-cons :
      (q q' : Queue) (p : Ptr) (es : List JobEntry)
      → owned (closure p) ≡ some p
      → (do q1 ← Registration.drop q p; release_node q1 p) ≡ ok q'
      → clear_events owned (entry_of p ∷ es) q ≡ clear_events owned es q'
  unfolding clear_events
  clear_events-cons q q' p es owns done = ground (arith, owns, done)

  -- Each closure is the last owner of the handles of its job's node: the nodes wait again.
  pub clear_events-IsQueue :
      (ps ws : List Ptr) (q : Queue)
      → IsQueue q ws
      → All (Ran q) ps
      → All IsReal ps
      → Distinct ps
      → Distinct (ws ++ ps)
      → All (λ p. owned (closure p) ≡ some p) ps
      → poll ≢ 0
      → (q' : Queue) × (clear_events owned (map entry_of ps) q ≡ ok q') × IsQueue q' (ws ++ ps)
  unfolding clear_events
  clear_events-IsQueue [] ws q v ran real d d' owns joined = (q, refl, rw (append-nil ws) v)
  clear_events-IsQueue (p ∷ ps) ws q v ran real d d' owns joined =
      let (q1, done, v1, frames) =
        drop_handles q ws p poll (closure p) v ran.0 real.0 (Distinct-middle ws ps p d') joined in
      let (q2, done2, v2) =
        clear_events-IsQueue ps (ws ++ p ∷ []) q1 v1 (Ran-frames q q1 p ps frames d.0 ran.1) real.1
          d.1 (rw (append_assoc ws (p ∷ []) ps) d') owns.1 joined in
      (
        q2,
        clear_events-cons q q1 p (map entry_of ps) owns.0 done ∙ done2,
        rw (← append_assoc ws (p ∷ []) ps) v2,
      )
