-- ===== src/Poll/Lock/Safety.antt =====
-- What the lock of `Poll::poll1` gives to the threads that share a `Poll`, src/poll.rs.
use sickle.Base.{ℕ, ◌^◌, ◌<◌, ◌≡◌, ◌≢◌, Bool, true, none, arith}
use sickle.Poll.Lock.Defs.{Pc, check, asleep, critical, round, System, Reach}
use sickle.Poll.Lock.Count.{total, total-zero, two_weights-le-total}
use sickle.Poll.Lock.Change.{held, helps}
use sickle.Poll.Lock.Invariant.{held_by, Reach-Inv}

-- Mutual exclusion: however the steps of fewer than 2^62 threads interleave, no two of them are in
-- `poll2` together.
pub one_polls :
    {n : ℕ} {s : System} (i j : ℕ)
    → n < 2 ^ 62
    → Reach n s
    → i < n
    → j < n
    → (s.pollers i).pc ≡ critical
    → (s.pollers j).pc ≡ critical
    → ◌≡◌ {A = ℕ} i j
one_polls {n} {s} i j few r lt lt' at at' =
    let v = Reach-Inv few r in
    ground (arith, v.single, two_weights-le-total held_by s.pollers n i j)

held_zero : (pc : Pc) → pc ≢ critical → held pc ≡ 0
held_zero pc ne = ground arith

-- No wakeup is lost: in every reachable state, if a thread sleeps on the condition variable while no
-- thread is in `poll2`, then some thread is about to wake one, or is awake and has not looked at the word
-- since, or has seen that the lock is free.
pub sleeper-Helper :
    {n : ℕ} {s : System} (i : ℕ)
    → n < 2 ^ 62
    → Reach n s
    → i < n
    → (s.pollers i).pc ≡ asleep
    → ((j : ℕ) → j < n → (s.pollers j).pc ≢ critical)
    → (j : ℕ) × (j < n) × (helps (s.pollers j).pc ≡ true)
sleeper-Helper {n} {s} i few r lt at free =
    let v = Reach-Inv few r in
    let none_held : total held_by s.pollers n ≡ 0 =
      total-zero held_by s.pollers n (λ k fits. held_zero (s.pollers k).pc (free k fits)) in
    v.helped i lt (rw at) (omega (arith, v.counted, none_held))

-- The addition of 2 in the loop of `poll1` never overflows, with fewer than 2^62 threads.
pub round-ne-none :
    {n : ℕ} {s : System} (i curr : ℕ) (inc zero_timeout : Bool)
    → n < 2 ^ 62
    → Reach n s
    → i < n
    → (s.pollers i).pc ≡ check curr inc
    → round s.shared.lock_state curr inc zero_timeout ≢ none
unfolding round
round-ne-none {n} {s} i curr inc zero_timeout few r lt at =
    let v = Reach-Inv few r in ground (arith, v.recent i lt)
