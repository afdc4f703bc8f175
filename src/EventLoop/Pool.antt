-- ===== src/EventLoop/Pool.antt =====
-- The loops of a pool, src/net/event_loop.rs.
use sickle.Base.{
  ℕ, zero, suc, ◌+◌, ◌<◌, ◌≡◌, refl, ap, subst, ◌∙◌, Bool, true, Option, some, List, [], ◌∷◌, ◌++◌,
  All, length, length-append, get_elem?, update, ok, success, unwrap, arith,
}
use sickle.Duration.{Duration, millis}
use sickle.Event.{Job}
use sickle.Ready
use sickle.PollOpt
use sickle.Queue
use sickle.Queue.{Queue}
use sickle.Timer.{Timer, Builder, build as build_timer, capacity, num_slots, tick_duration, default}
use sickle.Timer.Register.{register-IsOrdered}
use sickle.Timer.Slots.Wheel.{IsOrdered}
use sickle.Timer.Slots.Reached.{fresh, Reached-IsOrdered}
use sickle.EventLoop.Defs.{Config, configured_timer, EventLoop}
use sickle.EventLoop.Builder.{
  EventLoopBuilder, Answers, World, timer_entry, unwrapped, with_timer, configured, build,
  get_build, pool_builder, new_pool, get_current_loop,
}

-- The thread, its poll and its wakeup thread are made.
abbrev pub AllMade : Bool × Answers → Type 0
AllMade a = (a.0 ≡ true) × (a.1.polls ≡ true) × (a.1.spawns ≡ true)

build-IsOrdered : (b : Builder) → IsOrdered (build_timer {T = Job} b)
unfolding build_timer
build-IsOrdered b = Reached-IsOrdered (fresh (millis b.tick) b.num_slots b.capacity)

configured_timer-IsOrdered : (config : Config) → IsOrdered (configured_timer config)
unfolding configured_timer
configured_timer-IsOrdered config = build-IsOrdered (
    capacity (num_slots (tick_duration default config.timer_tick) config.timer_wheel_size)
      config.timer_capacity)

module _ (clock : ℕ → Duration) (stops : Job → Bool) (adjusts : Job → Timer Job → Timer Job) where
  configured-returns :
      (config : Config) (a : Answers)
      → a.polls ≡ true
      → a.spawns ≡ true
      → (x : Queue × EventLoop) × (configured clock stops adjusts config a ≡ ok (success x))
  unfolding configured configured_timer
  configured-returns config a polls spawns =
      let r =
        register-IsOrdered Queue.new (configured_timer config) a.node a.queue timer_entry
          Ready.readable PollOpt.edge (configured_timer-IsOrdered config) refl (omega arith)
          (omega arith) in
      ((r.0, with_timer clock stops adjusts r.1), rw (polls, spawns, r.3) refl)

  get_build-returns :
      (thread : ℕ) (b : EventLoopBuilder) (a : Answers) (w : World)
      → a.polls ≡ true
      → a.spawns ≡ true
      → (x : Queue × EventLoop) × (get_build clock stops adjusts thread b a w
          ≡ ok (
            length w.loops,
            record b { event_loop = some (length w.loops) },
            record {
              loops = w.loops ++ (x ∷ []);
              current_loop = update w.current_loop thread (some (length w.loops));
            },
          ))
  unfolding get_build build unwrapped
  get_build-returns thread b a w polls spawns =
      let (x, done) = configured-returns b.config a polls spawns in (x, rw done refl)

  -- The loops of the pool, and the current loops of its threads.
  record Owns (thread : ℕ) (answers : List (Bool × Answers)) (w : World) (ids : List ℕ) (w' : World)
      : Type 0 where
    returns : new_pool clock stops adjusts thread answers w ≡ ok (ids, w')
    count : length ids ≡ length answers
    more : length w'.loops ≡ length w.loops + length answers
    each :
        (i : ℕ)
        → i < length answers
        → (get_elem? ids i ≡ some (length w.loops + i))
          × (w'.current_loop (thread + i) ≡ some (length w.loops + i))
    before : (k : ℕ) → k < thread → w'.current_loop k ≡ w.current_loop k

  each_of :
      (i thread : ℕ) (a : Bool × Answers) (rest : List (Bool × Answers)) (w w1 w' : World)
      (ids : List ℕ)
      → length w1.loops ≡ length w.loops + 1
      → w1.current_loop thread ≡ some (length w.loops)
      → Owns (thread + 1) rest w1 ids w'
      → i < suc (length rest)
      → (get_elem? (length w.loops ∷ ids) i ≡ some (length w.loops + i))
        × (w'.current_loop (thread + i) ≡ some (length w.loops + i))
  each_of zero thread a rest w w1 w' ids grown here r h =
      let same : thread + 0 ≡ thread = omega arith in
      let none : length w.loops + 0 ≡ length w.loops = omega arith in
      rw (same, none) (refl, r.before thread (omega arith) ∙ here)
  each_of (suc i) thread a rest w w1 w' ids grown here r h =
      let (id, current) = r.each i (omega (arith, h)) in
      let at : thread + 1 + i ≡ thread + suc i = omega arith in
      let loop : length w1.loops + i ≡ length w.loops + suc i = omega (arith, grown) in
      (
        id ∙ ap (λ n. some n) loop,
        subst (λ k. w'.current_loop k ≡ some (length w1.loops + i)) at current
            ∙ ap (λ n. some n) loop,
      )

  new_pool-Owns :
      (answers : List (Bool × Answers)) (thread : ℕ) (w : World)
      → All AllMade answers
      → (ids : List ℕ) × (w' : World) × Owns thread answers w ids w'
  unfolding new_pool
  new_pool-Owns [] thread w made = (
    [],
    w,
    record {
      returns = refl;
      count = refl;
      more = omega arith;
      each = λ i h. absurd (omega (arith, h));
      before = λ k h. refl;
    },
  )
  new_pool-Owns (a ∷ rest) thread w ((starts, polls, spawns), made) =
      let b = pool_builder clock stops adjusts in
      let (x, done) = get_build-returns thread b a.1 w polls spawns in
      let w1 : World = record {
        loops = w.loops ++ (x ∷ []);
        current_loop = update w.current_loop thread (some (length w.loops));
      } in
      let grown : length w1.loops ≡ length w.loops + 1 = length-append w.loops (x ∷ []) in
      let (ids, w', r) = new_pool-Owns rest (thread + 1) w1 made in
      (
        length w.loops ∷ ids,
        w',
        record {
          returns = rw (starts, done, r.returns) refl;
          count = ap (λ n. suc n) r.count;
          more = omega (arith, r.more, grown);
          each = λ i h. each_of i thread a rest w w1 w' ids grown (ground arith) r h;
          before = λ k h. r.before k (omega (arith, h)) ∙ ground (arith, h);
        },
      )

  -- Where the system starts each thread of a pool, and each of them can make its poll and register its
  -- timer, making the pool returns and makes as many loops as it was asked for: the pool's loop at
  -- each position is the next one to be made, so no two are the same, and it is the current loop of the
  -- thread at that position; the threads before those of the pool keep their current loop.
  pub new_pool_lem :
      (answers : List (Bool × Answers)) (thread : ℕ) (w : World)
      → All AllMade answers
      → (ids : List ℕ) × (w' : World) × (new_pool clock stops adjusts thread answers w
          ≡ ok (ids, w'))
        × (length ids ≡ length answers)
        × (length w'.loops ≡ length w.loops + length answers)
        × ((i : ℕ)
            → i < length answers
            → (get_elem? ids i ≡ some (length w.loops + i))
              × (get_current_loop (thread + i) w' ≡ ok (length w.loops + i)))
        × ((k : ℕ) → k < thread → get_current_loop k w' ≡ get_current_loop k w)
  unfolding get_current_loop
  new_pool_lem answers thread w made =
      let (ids, w', r) = new_pool-Owns answers thread w made in
      (
        ids,
        w',
        r.returns,
        r.count,
        r.more,
        λ i h. ((r.each i h).0, ap (λ (o : Option ℕ). unwrap o) (r.each i h).1),
        λ k h. ap (λ (o : Option ℕ). unwrap o) (r.before k h),
      )
