-- ===== src/Registration/Tests.antt =====
-- A registration that becomes ready.
use sickle.Base.{◌≡◌, refl, true, some, [], ◌∷◌, ◌==◌, if◌then◌else◌, arith}
use sickle.Bits.{bit_and}
use sickle.ReadinessState
use sickle.ReadinessState.{ReadinessState, fields}
use sickle.Ready.{Ready}
use sickle.PollOpt.{PollOpt}
use sickle.Registration.Defs.{with_readiness, readiness_loop}
use sickle.Registration.Laws.{with_readiness-fields, readiness_loop-last, last_state, AllLive}

-- Interest 3 and options 1; and the same with readiness 1, set and queued by another thread.
abbrev registered : ReadinessState
registered = record { bits = 0x130 }

abbrev raced : ReadinessState
raced = record { bits = 0x1_0131 }

abbrev writable_only : Ready
writable_only = record { bits = 2 }

abbrev level_only : PollOpt
level_only = record { bits = 2 }

with_readiness-fields_example :
    fields (with_readiness registered writable_only) ≡ record (fields registered) {
      readiness = 2;
      queued =
          if bit_and 2 (fields registered).interest == 0 then (fields registered).queued else true;
    }
with_readiness-fields_example = with_readiness-fields registered writable_only (omega arith)

race_AllLive : AllLive registered (raced ∷ [])
unfolding ReadinessState.is_dropped
race_AllLive = (refl, (refl, tt))

readiness_loop-last_example :
    readiness_loop registered writable_only (raced ∷ [])
    ≡ some (
      last_state registered (raced ∷ []),
      with_readiness (last_state registered (raced ∷ [])) writable_only,
    )
readiness_loop-last_example = readiness_loop-last registered writable_only (raced ∷ []) race_AllLive
