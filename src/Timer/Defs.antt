-- ===== src/Timer/Defs.antt =====
-- The data of src/timer.rs: entries in a slab, linked into the slots of a wheel.
use sickle.Base.{ℕ, zero, suc, ◌-◌, ◌*◌, Option, none, leb, if◌then◌else◌}
use sickle.Bits.{word}
use sickle.Duration.{Duration, u64_max, millis}

abbrev pub Tick : Type 0
Tick = ℕ

-- `EMPTY`, `Token(usize::MAX)`
abbrev pub empty : ℕ
empty = word - 1

abbrev pub tick_max : Tick
tick_max = u64_max

pub record Timeout : Type 0 where
  pub token : ℕ
  pub tick : Tick

pub record EntryLinks : Type 0 where
  pub tick : Tick
  pub prev : ℕ
  pub next : ℕ

pub record Entry (T : Type 0) : Type 0 where
  pub state : T
  pub links : EntryLinks

-- `Entry::new`
abbrev pub new_entry : {T : Type 0} → T → Tick → ℕ → Entry T
new_entry state tick next = record {
  state = state;
  links = record { tick = tick; prev = empty; next = next };
}

pub record WheelEntry : Type 0 where
  pub next_tick : Tick
  pub head : ℕ

-- What a registered timer shares with its wakeup thread: the tick that the thread waits for, how
-- often it was unparked, and the readiness that was last set.
pub record Inner : Type 0 where
  pub wakeup_state : ℕ
  pub unparks : ℕ
  pub readiness : ℕ

-- The slab is a map from keys to entries, and the wheel a map from its `num_slots` slots. Every slot
-- that the code reads comes from `slot_for`, which masks a tick.
pub record Timer (T : Type 0) : Type 0 where
  pub tick_ms : ℕ
  pub entries : ℕ → Option (Entry T)
  pub wheel : ℕ → WheelEntry
  pub num_slots : ℕ
  pub tick : Tick
  pub next : ℕ
  pub mask : ℕ
  pub inner : Option Inner

pub record Builder : Type 0 where
  pub tick : Duration
  pub num_slots : ℕ
  pub capacity : ℕ

abbrev pub tick_duration : Builder → Duration → Builder
tick_duration b duration = record b { tick = duration }

abbrev pub num_slots : Builder → ℕ → Builder
num_slots b n = record b { num_slots = n }

abbrev pub capacity : Builder → ℕ → Builder
capacity b n = record b { capacity = n }

-- `Builder::default`
abbrev pub default : Builder
default = record {
  tick = record { as_secs = 0; subsec_nanos = 100_000_000 };
  num_slots = 256;
  capacity = 65_536;
}

-- The least power of two from `p` on that is at least `n`, trying as many as there is fuel.
pub power_from : ℕ → ℕ → ℕ → ℕ
power_from zero p n = p
power_from (suc fuel) p n = let rest = power_from fuel (p * 2) n in if leb n p then p else rest

-- `usize::next_power_of_two`; 64 doublings reach every `usize`.
unfoldable pub next_power_of_two : ℕ → ℕ
unfolding power_from
next_power_of_two n = power_from 64 1 n

-- `Timer::new`. The capacity only reserves memory of the slab.
unfoldable pub new : {T : Type 0} → (tick_ms num_slots capacity : ℕ) → Timer T
unfolding next_power_of_two
new tick_ms num_slots capacity =
    let slots = next_power_of_two num_slots in
    record {
      tick_ms = tick_ms;
      entries = λ _. none;
      wheel = λ _. record { next_tick = tick_max; head = empty };
      num_slots = slots;
      tick = 0;
      next = empty;
      mask = slots - 1;
      inner = none;
    }

unfoldable pub build : {T : Type 0} → Builder → Timer T
unfolding new
build b = new (millis b.tick) b.num_slots b.capacity
