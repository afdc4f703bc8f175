-- ===== src/Ready/Tests.antt =====
-- Flags of a `Ready`.
use sickle.Ready.Defs.{Ready}

abbrev both : Ready
both = record { bits = 3 }
