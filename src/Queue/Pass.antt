-- ===== src/Queue/Pass.antt =====
-- `ReadinessQueue::poll` of src/poll.rs against one pass over the nodes that wait.
use sickle.Base.{
  ℕ, zero, suc, ◌≤◌, ◌≡◌, ◌≢◌, refl, ap, subst, ◌∙◌, ◌⊎◌, inl, inr, true, List, [], ◌∷◌, ◌++◌,
  append-nil, append_assoc, ◌==◌, ltb, All, All-append, All-parts, arith, length, ok, Outcome,
  After, Bool-cases,
}
use sickle.Queue.Defs.{Ptr, null, Node, Queue, Dequeue, empty, dequeue_node}
use sickle.Selector.{Events}
use sickle.Queue.Drain.{poll_loop, poll}
use sickle.Queue.Links.{Apart}
use sickle.Queue.Fifo.{IsReal, IsQueue}
use sickle.Queue.Dequeue.{dequeue_node-nil}
use sickle.Queue.Clear.{dequeue_node-until, clear_sleep_marker-IsQueue}
use sickle.Queue.Frame.{Has, Frames, FramesBut, dequeue_node-Frames, clear_sleep_marker-Frames}
use sickle.Queue.Deliver.{events_of, stays, delivered, again, IsHanded, handed_out}
use sickle.Queue.Round.{poll_loop-Turned}
use sickle.Queue.Nodes.{
  IsFull, delivered-append, events, staying, Holds, Holds-frames, IsSpent, IsSpent-frames,
  IsSpent-All, until_of, mark_lem, until-ne,
}

module _ (c : Ptr → Node) where
  -- A node that was handed out stays where it is, without its job.
  abbrev pub Handed : Queue → Ptr → Type 0
  Handed q p = IsHanded (c p) → Has q p (handed_out (c p))

  -- What the loop leaves of the nodes `ps` that it has not looked at and of those in `back`.
  record Passed (fuel0 : ℕ) (q : Queue) (dst : Events) (ps back : List Ptr) : Type 0 where
    done : List Ptr
    rest : List Ptr
    last : Queue
    split : ps ≡ done ++ rest
    returns :
        (fuel : ℕ)
        → fuel0 ≤ fuel
        → poll_loop fuel q (until_of back) dst ≡ ok (last, delivered dst (events c done))
    queue : IsQueue last (rest ++ (back ++ staying c done))
    room : (rest ≡ []) ⊎ IsFull (delivered dst (events c done))
    spent : All (IsSpent last) (back ++ staying c done)
    outside : (j : Ptr) (n : Node) → Apart j ps → Has q j n → Has last j n
    handed : All (Handed last) done

  -- A loop that ends at once.
  Passed-nothing :
      (fuel0 : ℕ) (q q' : Queue) (dst : Events) (ps back : List Ptr)
      → ((fuel : ℕ) → fuel0 ≤ fuel → poll_loop fuel q (until_of back) dst ≡ ok (q', dst))
      → IsQueue q' (ps ++ back)
      → (ps ≡ []) ⊎ IsFull dst
      → All (IsSpent q') back
      → Frames q q'
      → Passed fuel0 q dst ps back
  unfolding events staying
  Passed-nothing fuel0 q q' dst ps back runs v room spent frames = record {
    outside = λ j n apart has. frames j n has;
    handed = tt;
    done = [];
    rest = ps;
    last = q';
    split = refl;
    returns = λ fuel h. runs fuel h;
    queue = rw (append-nil back) v;
    room = room;
    spent = rw (append-nil back) spent;
  }

  full :
      (fuel : ℕ) (q : Queue) (until : Ptr) (dst : Events)
      → 1 ≤ fuel
      → IsFull dst
      → poll_loop fuel q until dst ≡ ok (q, dst)
  unfolding poll_loop
  full zero q until dst h f = absurd (omega arith)
  full (suc fuel) q until dst h f = rw f refl

  ended :
      (fuel : ℕ) (q q' : Queue) (until : Ptr) (dst : Events)
      → 1 ≤ fuel
      → ltb (length dst.entries) dst.capacity ≡ true
      → dequeue_node q until ≡ ok (empty, q')
      → poll_loop fuel q until dst ≡ ok (q', dst)
  unfolding poll_loop
  ended zero q q' until dst h f e = absurd (omega arith)
  ended (suc fuel) q q' until dst h f e = ground (arith, f, e)

  -- Nothing is left but what was handed in again.
  poll_loop-nil :
      (q : Queue) (dst : Events) (back : List Ptr)
      → IsQueue q back
      → ltb (length dst.entries) dst.capacity ≡ true
      → All (IsSpent q) back
      → Passed 1 q dst [] back
  unfolding until_of
  poll_loop-nil q dst [] v room spent =
      let (q', e, v', _, _) = dequeue_node-nil q null v in
      let frames : Frames q q' =
        subst (After (λ (r : Dequeue × Queue). Frames q r.1)) e (dequeue_node-Frames q null) in
      Passed-nothing 1 q q' dst [] [] (λ fuel h. ended fuel q q' null dst h room e) v' (inl refl) tt
        frames
  poll_loop-nil q dst (x ∷ back) v room spent =
      let (q', e, v') = dequeue_node-until q x back v in
      let frames : Frames q q' =
        subst (After (λ (r : Dequeue × Queue). Frames q r.1)) e (dequeue_node-Frames q x) in
      Passed-nothing 1 q q' dst [] (x ∷ back) (λ fuel h. ended fuel q q' x dst h room e) v'
        (inl refl) (IsSpent-All q q' (x ∷ back) frames spent) frames

  later :
      (fuel : ℕ) (q : Queue) (until : Ptr) (dst : Events) (n : ℕ)
      (go : ℕ → Outcome (Queue × Events)) (out : Outcome (Queue × Events))
      → ((k : ℕ) → poll_loop (suc k) q until dst ≡ go k)
      → ((k : ℕ) → n ≤ k → go k ≡ out)
      → suc n ≤ fuel
      → poll_loop fuel q until dst ≡ out
  later zero q until dst n go out step ends h = absurd (omega arith)
  later (suc fuel) q until dst n go out step ends h = step fuel ∙ ends fuel (omega arith)

  -- The first node is taken out, and the loop goes on with the others.
  Passed-cons :
      (q q' : Queue) (dst : Events) (p : Ptr) (ps back : List Ptr)
      → ((fuel : ℕ)
          → poll_loop (suc fuel) q (until_of back) dst
            ≡ poll_loop fuel q'
                (until_of (back ++ again p (c p)))
                (delivered dst (events_of (c p))))
      → Passed (suc (length ps)) q' (delivered dst (events_of (c p))) ps (back ++ again p (c p))
      → FramesBut p q q'
      → Handed q' p
      → Apart p ps
      → Passed (suc (suc (length ps))) q dst (p ∷ ps) back
  unfolding events staying
  Passed-cons q q' dst p ps back step r frames gives apart =
      let es = delivered-append dst (events_of (c p)) (events c r.done) in
      let bs = append_assoc back (again p (c p)) (staying c r.done) in
      record {
        done = p ∷ r.done;
        rest = r.rest;
        last = r.last;
        split = ap (λ xs. p ∷ xs) r.split;
        returns = λ fuel h.
            rw es (later fuel q (until_of back) dst (suc (length ps)) _ _ step r.returns h);
        queue = rw (← bs) r.queue;
        room = rw es r.room;
        spent = rw (← bs) r.spent;
        outside = λ j n far has. r.outside j n far.1 (frames j n far.0 has);
        handed = (λ h. r.outside p (handed_out (c p)) apart (gives h), r.handed);
      }

  module _ (q : Queue) (dst : Events) (p : Ptr) (ps back : List Ptr) where
    abbrev Goes : Type 0
    Goes =
        (q' : Queue) × ((fuel : ℕ)
          → poll_loop (suc fuel) q (until_of back) dst
            ≡ poll_loop fuel q' (until_of (back ++ again p (c p)))
                (delivered dst (events_of (c p))))
        × IsQueue q' (ps ++ (back ++ again p (c p)))
        × All (Holds c q') ps
        × All (IsSpent q') (back ++ again p (c p))
        × FramesBut p q q'
        × Handed q' p
        × Apart p ps

    again-IsSpent :
        (q' : Queue) → (stays (c p) ≡ true → IsSpent q' p) → All (IsSpent q') (again p (c p))
    again-IsSpent q' h = elim (Bool-cases (stays (c p))) [
      | inl e ↦ rw e (h e, tt)
      | inr e ↦ rw e tt
    ]

    goes :
        IsQueue q (p ∷ (ps ++ back))
        → All (Holds c q) (p ∷ ps)
        → All (IsSpent q) back
        → ltb (length dst.entries) dst.capacity ≡ true
        → Goes
    goes v holds spent room =
        let (apart, apart') = All-parts (λ x. p ≢ x) ps back v.distinct.0 in
        let real = (All-parts IsReal ps back v.real.1).1 in
        let (q', step, turned) =
          poll_loop-Turned q p (until_of back) (c p) (ps ++ back) dst v holds.0.0 holds.0.1
            (until-ne back p v.real.0 apart') room in
        (
          q',
          rw (← mark_lem back p (c p) real) step,
          rw (← append_assoc ps back (again p (c p))) turned.queue,
          Holds-frames c q q' p ps turned.frames apart holds.1,
          All-append (IsSpent q') back (again p (c p))
              (IsSpent-frames q q' p back turned.frames apart' spent)
              (again-IsSpent q' turned.spent),
          turned.frames,
          turned.handed,
          apart,
        )

  poll_loop-Passed :
      (q : Queue) (dst : Events) (ps back : List Ptr)
      → IsQueue q (ps ++ back)
      → All (Holds c q) ps
      → All (IsSpent q) back
      → Passed (suc (length ps)) q dst ps back
  poll_loop-Passed q dst [] back v holds spent =
      elim (Bool-cases (ltb (length dst.entries) dst.capacity)) [
        | inr at_end ↦
            Passed-nothing 1 q q dst [] back (λ fuel h. full fuel q (until_of back) dst h at_end) v
              (inr at_end) spent (λ j n has. has)
        | inl room ↦ poll_loop-nil q dst back v room spent
      ]
  poll_loop-Passed q dst (p ∷ ps) back v holds spent =
      elim (Bool-cases (ltb (length dst.entries) dst.capacity)) [
        | inr at_end ↦
            Passed-nothing (suc (suc (length ps))) q q dst (p ∷ ps) back
              (λ fuel h. full fuel q (until_of back) dst (omega (arith, h)) at_end) v (inr at_end)
              spent (λ j n has. has)
        | inl room ↦
            let (q', step, v', holds', spent', frames, gives, apart) =
              goes q dst p ps back v holds spent room in
            Passed-cons q q' dst p ps back step
              (poll_loop-Passed q' (delivered dst (events_of (c p))) ps (back ++ again p (c p)) v'
                holds' spent')
              frames gives apart
      ]

  Holds-All :
      (q q' : Queue) (ps : List Ptr) → Frames q q' → All (Holds c q) ps → All (Holds c q') ps
  Holds-All q q' [] frames h = tt
  Holds-All q q' (x ∷ ps) frames h = ((frames x (c x) h.0.0, h.0.1), Holds-All q q' ps frames h.1)

  -- `poll` starts its loop with the same nodes.
  started :
      (q : Queue) (ns : List Ptr) (dst : Events)
      → IsQueue q ns
      → All (Holds c q) ns
      → (q' : Queue) × ((fuel : ℕ) → poll fuel q dst ≡ poll_loop fuel q' null dst)
        × IsQueue q' ns
        × All (Holds c q') ns
  unfolding poll
  started q ns dst v holds = elim (Bool-cases (length dst.entries == dst.capacity)) [
    | inl e ↦
        let (q', done, v') = clear_sleep_marker-IsQueue q ns v in
        (
          q',
          λ fuel. rw (e, done) refl,
          v',
          Holds-All q q' ns (subst (After (Frames q)) done (clear_sleep_marker-Frames q)) holds,
        )
    | inr e ↦ (q, λ fuel. rw e refl, v, holds)
  ]

  -- The pass, with what it leaves of the nodes that were handed out.
  pub poll-pass :
      (q : Queue) (ns : List Ptr) (dst : Events)
      → IsQueue q ns
      → All (Holds c q) ns
      → (done rest : List Ptr) × (q' : Queue) × (ns ≡ done ++ rest)
        × ((fuel : ℕ)
            → suc (length ns) ≤ fuel
            → poll fuel q dst ≡ ok (q', delivered dst (events c done)))
        × IsQueue q' (rest ++ staying c done)
        × ((rest ≡ []) ⊎ IsFull (delivered dst (events c done)))
        × All (IsSpent q') (staying c done)
        × All (Handed q') done
  unfolding until_of
  poll-pass q ns dst v holds =
      let (q1, same, v1, holds1) = started q ns dst v holds in
      let r = poll_loop-Passed q1 dst ns [] (rw (append-nil ns) v1) holds1 tt in
      (
        r.done,
        r.rest,
        r.last,
        r.split,
        λ fuel h. same fuel ∙ r.returns fuel h,
        r.queue,
        r.room,
        r.spent,
        r.handed,
      )

  -- A poll of the readiness queue is one pass over the nodes that wait, which are marked as queued
  -- and have their write position at one of the three slots. With more fuel than nodes it returns,
  -- and has looked at the first of them in their order, each once: at all, or until the events were
  -- full. It appends the events of these nodes: one for each node that was not dropped and has a
  -- readiness of interest, with that readiness, the token that was written last, and the node's job.
  -- Behind the nodes that it has not looked at the queue then holds those that are ready and level-
  -- triggered, in the same order, with jobs that do nothing.
  pub poll-events :
      (q : Queue) (ns : List Ptr) (dst : Events)
      → IsQueue q ns
      → All (Holds c q) ns
      → (done rest : List Ptr) × (q' : Queue) × (ns ≡ done ++ rest)
        × ((fuel : ℕ)
            → suc (length ns) ≤ fuel
            → poll fuel q dst ≡ ok (q', delivered dst (events c done)))
        × IsQueue q' (rest ++ staying c done)
        × ((rest ≡ []) ⊎ IsFull (delivered dst (events c done)))
        × All (IsSpent q') (staying c done)
  poll-events q ns dst v holds =
      let (done, rest, q', split, runs, v', room, spent, _) = poll-pass q ns dst v holds in
      (done, rest, q', split, runs, v', room, spent)
