-- ===== src/Duration/Tests.antt =====
-- Durations in milliseconds.
use sickle.Base.{◌+◌, ◌/◌, ◌^◌, ◌<◌, ◌≡◌, refl, min, arith}
use sickle.Duration.{Duration, IsDuration, millis, millis_bounds, nanos, nanos_per_milli, u64_max}

abbrev short : Duration
short = record { as_secs = 2; subsec_nanos = 1_000_001 }

short-IsDuration : IsDuration short
short-IsDuration = record { secs_fit = omega arith; nanos_fit = omega arith }

millis-short : millis short ≡ 2_002
unfolding millis
millis-short = refl

millis_bounds_example :
    (short.subsec_nanos + nanos_per_milli < 2 ^ 32)
    × (millis short ≡ min ((nanos short + 999_999) / 1_000_000) u64_max)
millis_bounds_example = millis_bounds short short-IsDuration
