-- ===== src/Timer/Wakeup/Tests.antt =====
-- A wakeup thread that is scheduled for tick 7, sleeps, and is woken for tick 0.
use sickle.Base.{ℕ, update, ◌≤◌, ◌<◌, ◌≡◌, refl, true, false, arith, ◌⊎◌}
use sickle.Timer.Defs.{tick_max}
use sickle.Timer.Wakeup.Defs.{
  parked, signal, stopped, away, unparking, Alarm, look_at, exchanged, tested, tried, trying,
  time_passes, looks, reloads, exchanges, calls, tries, unparked, spawned, Reach, Steps, start,
  later,
}
use sickle.Timer.Wakeup.Safety.{wanted-le, signal-le, stops-schedule_zero}

abbrev asked : Alarm
asked = record (spawned 3) {
  wakeup_state = 7;
  callers = update (update (λ _. away) 0 (trying 7 tick_max)) 0 (unparking 7);
  wanted = 7;
}

asked-Reach : Reach 3 asked
unfolding tested tried
asked-Reach = later (later start (calls 0 7 (omega arith) refl)) (tries 0 7 tick_max refl)

abbrev sleeping : Alarm
sleeping = record asked { callers = update asked.callers 0 away; token = true; thread = parked 7 }

sleeping-Reach : Reach 3 sleeping
unfolding look_at
sleeping-Reach = later (later (later asked-Reach (unparked 0 7 refl)) (reloads refl)) (looks 7 refl)

wanted-le_example :
    (((u : ℕ) × (sleeping.thread ≡ signal u)) ⊎ (7 ≤ 7))
    × ((u : ℕ)
        → sleeping.thread ≡ parked u
        → 7 < u
        → (sleeping.token ≡ true) ⊎ ((i : ℕ) × (tick : ℕ) × (sleeping.callers i ≡ unparking tick)))
wanted-le_example = wanted-le sleeping-Reach

abbrev signalling : Alarm
signalling = record asked { wakeup_state = tick_max; now = 9; thread = signal 7 }

signalling-Reach : Reach 3 signalling
unfolding look_at exchanged
signalling-Reach =
    later
      (later (later (later asked-Reach (time_passes 9 (omega arith))) (reloads refl))
        (looks 7 refl))
      (exchanges 7 refl)

signal-le_example : 7 ≤ 9
signal-le_example = signal-le signalling-Reach refl

stops-schedule_zero_example :
    (b : Alarm) × Steps sleeping b
    × (b.dropped ≡ false)
    × (b.wanted ≡ 0)
    × (b.thread ≡ stopped)
    × (b.ready ≡ false)
    × ((c : Alarm) → Steps b c → c.thread ≡ stopped)
stops-schedule_zero_example = stops-schedule_zero 1 sleeping-Reach refl refl refl (omega arith)
