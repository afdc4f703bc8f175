-- ===== src/ReadinessState/Tests.antt =====
-- The fields of a word at work.
use sickle.Base.{ℕ, ◌≡◌, ◌≢◌, ◌<◌, true, false, some, arith}
use sickle.Ready.{Ready}
use sickle.PollOpt.{PollOpt}
use sickle.ReadinessState.Defs.{
  ReadinessState, set_readiness, set_interest, set_poll_opt, set_queued, set_dequeued,
  set_token_write_pos, update_token_read_pos, disarm, next_token_pos, token_read_pos,
  token_write_pos,
}
use sickle.ReadinessState.Laws.{fields}
use sickle.ReadinessState.Updates.{update-fields, next_token_pos_lem}

-- Readiness 5, interest 6, options 7, read position 1, write position 2, queued.
abbrev word_in_use : ReadinessState
word_in_use = record { bits = 0x19765 }

abbrev both : Ready
both = record { bits = 3 }

abbrev edge_oneshot : PollOpt
edge_oneshot = record { bits = 5 }

update-fields_example :
    let s = word_in_use in
    (fields (set_readiness s both) ≡ record (fields s) { readiness = 3 })
    × (fields (set_interest s both) ≡ record (fields s) { interest = 3 })
    × (fields (set_poll_opt s edge_oneshot) ≡ record (fields s) { poll_opt = 5 })
    × (fields (set_token_write_pos s 0) ≡ record (fields s) { write_pos = 0 })
    × (fields (set_queued s) ≡ record (fields s) { queued = true })
    × (fields (set_dequeued s) ≡ record (fields s) { queued = false })
    × (fields (update_token_read_pos s) ≡ record (fields s) { read_pos = (fields s).write_pos })
    × (fields (disarm s) ≡ record (fields s) { interest = 0 })
update-fields_example =
    update-fields word_in_use both edge_oneshot 0 (omega arith) (omega arith) (omega arith)

read_pos_fits : token_read_pos word_in_use < 3
unfolding token_read_pos
read_pos_fits = omega arith

write_pos_fits : token_write_pos word_in_use < 3
unfolding token_write_pos
write_pos_fits = omega arith

next_token_pos_lem_example :
    (p : ℕ) × (next_token_pos word_in_use ≡ some p)
    × (p < 3)
    × (p ≢ token_write_pos word_in_use)
    × (p ≢ token_read_pos word_in_use)
next_token_pos_lem_example = next_token_pos_lem word_in_use read_pos_fits write_pos_fits
