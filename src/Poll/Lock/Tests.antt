-- ===== src/Poll/Lock/Tests.antt =====
-- Two threads poll: the first goes on to `poll2`, the second waits, and the first leaves.
use sickle.Base.{ℕ, ◌<◌, ◌≡◌, ◌≢◌, refl, true, false, none, some, update, arith}
use sickle.Poll.Lock.Defs.{
  Pc, lock, check, wait, asleep, critical, notify, Poller, Shared, first_try, round, release, enter,
  locked, looped, waits, released, System, move, init, Reach, start, later,
}
use sickle.Poll.Lock.Change.{helps}
use sickle.Poll.Lock.Safety.{one_polls, sleeper-Helper, round-ne-none}

abbrev at : Pc → Poller
at pc = record { pc = pc; timeout = none }

abbrev word : ℕ → Shared
word state = record { lock_state = state; mutex = none }

abbrev with_mutex : ℕ → ℕ → Shared
with_mutex i state = record { lock_state = state; mutex = some i }

abbrev goes : System → ℕ → Shared → Pc → System
goes s i m pc = record { shared = m; pollers = update s.pollers i (at pc) }

abbrev polling : System
polling = goes init 0 (word 1) critical

abbrev refused : System
refused = goes polling 1 (word 1) (lock 1)

abbrev checking : System
checking = goes refused 1 (with_mutex 1 1) (check 1 false)

abbrev waiting : System
waiting = goes checking 1 (with_mutex 1 3) wait

abbrev sleeping : System
sleeping = goes waiting 1 (word 3) asleep

abbrev left : System
left = goes sleeping 0 (word 2) notify

polling-Reach : Reach 2 polling
unfolding first_try
polling-Reach = later start (move 0 (omega arith) (enter none refl refl refl))

checking-Reach : Reach 2 checking
unfolding first_try
checking-Reach =
    later (later polling-Reach (move 1 (omega arith) (enter none refl refl refl)))
      (move 1 (omega arith) (locked 1 refl refl refl refl))

left-Reach : Reach 2 left
unfolding round release
left-Reach =
    later
      (later
        (later checking-Reach
          (move 1 (omega arith) (looped 1 3 false true wait refl refl refl refl)))
        (move 1 (omega arith) (waits refl refl refl)))
      (move 0 (omega arith) (released refl refl refl))

one_polls_example : ◌≡◌ {A = ℕ} 0 0
one_polls_example = one_polls 0 0 (omega arith) polling-Reach (omega arith) (omega arith) refl refl

none_polls : (j : ℕ) → j < 2 → (left.pollers j).pc ≢ critical
none_polls j lt = ground arith

sleeper-Helper_example : (j : ℕ) × (j < 2) × (helps (left.pollers j).pc ≡ true)
sleeper-Helper_example = sleeper-Helper 1 (omega arith) left-Reach (omega arith) refl none_polls

round-ne-none_example : round 1 1 false false ≢ none
round-ne-none_example =
    round-ne-none 1 1 false false (omega arith) checking-Reach (omega arith) refl
