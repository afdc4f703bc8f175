-- ===== src/Duration.antt =====
-- `Duration` of Rust's standard library, as far as the program reads it: whole seconds below 2^64 and
-- nanoseconds below 10^9, each in its own accessor; and `millis` of src/lib.rs (`convert::millis`),
-- which src/sys/unix/epoll.rs repeats.
mod Tests
use sickle.Base.{ℕ, ◌+◌, ◌-◌, ◌*◌, ◌/◌, ◌^◌, ◌<◌, ◌≡◌, min, arith}

pub record Duration : Type 0 where
  pub as_secs : ℕ
  pub subsec_nanos : ℕ

-- What `std::time::Duration` guarantees of its two parts.
pub record IsDuration (d : Duration) : Type 0 where
  pub secs_fit : d.as_secs < 2 ^ 64
  pub nanos_fit : d.subsec_nanos < 1_000_000_000

abbrev pub u64_max : ℕ
u64_max = 2 ^ 64 - 1

abbrev pub saturating_add : ℕ → ℕ → ℕ
saturating_add a b = min (a + b) u64_max

abbrev pub saturating_mul : ℕ → ℕ → ℕ
saturating_mul a b = min (a * b) u64_max

abbrev pub nanos_per_milli : ℕ
nanos_per_milli = 1_000_000

abbrev pub millis_per_sec : ℕ
millis_per_sec = 1_000

-- The source forms the sum of the nanoseconds in a `u32`, which it fits.
unfoldable pub millis : Duration → ℕ
millis duration =
    let part = (duration.subsec_nanos + nanos_per_milli - 1) / nanos_per_milli in
    saturating_add (saturating_mul duration.as_secs millis_per_sec) part

abbrev pub nanos : Duration → ℕ
nanos d = d.as_secs * 1_000_000_000 + d.subsec_nanos

-- `millis` rounds a duration up to the next millisecond, and stays at the largest `u64` where that does
-- not fit; the sum that it forms in a `u32` does not overflow.
pub millis_bounds :
    (d : Duration)
    → IsDuration d
    → (d.subsec_nanos + nanos_per_milli < 2 ^ 32)
      × (millis d ≡ min ((nanos d + 999_999) / 1_000_000) u64_max)
unfolding millis
millis_bounds d v = omega arith
