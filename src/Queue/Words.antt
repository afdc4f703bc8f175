-- ===== src/Queue/Words.antt =====
-- The word that `poll` of the readiness queue of src/poll.rs writes back to a node.
use sickle.Base.{◌≡◌, sym, true, false, not, ◌&&◌, if◌then◌else◌, Bool, arith}
use sickle.Ready
use sickle.PollOpt
use sickle.ReadinessState.{
  ReadinessState, effective_readiness, poll_opt, is_queued, token_read_pos, token_write_pos,
  set_dequeued, disarm, update_token_read_pos, fields, set_interest-fields, set_dequeued-fields,
  update_token_read_pos-fields, queued_field, read_pos_field, write_pos_field,
}
use sickle.Queue.Drain.{polled_state}

abbrev pub is_idle : ReadinessState → Bool
is_idle s = Ready.is_empty (effective_readiness s)

abbrev pub is_edge : ReadinessState → Bool
is_edge s = PollOpt.is_edge (poll_opt s)

abbrev is_oneshot : ReadinessState → Bool
is_oneshot s = PollOpt.is_oneshot (poll_opt s)

-- The word before its read position is set.
before : ReadinessState → ReadinessState
before s =
    if is_edge s
    then (if is_oneshot s && not (is_idle s) then disarm (set_dequeued s) else set_dequeued s)
    else if is_idle s
    then set_dequeued s
    else s

polled_before : (s : ReadinessState) → polled_state s ≡ update_token_read_pos (before s)
unfolding polled_state before
polled_before s = ground arith

before-fields :
    (s : ReadinessState)
    → ((fields (before s)).write_pos ≡ (fields s).write_pos)
      × ((fields (before s)).queued
          ≡ (if is_edge s then false else if is_idle s then false else (fields s).queued))
unfolding before disarm
before-fields s =
    ground
      (arith, set_dequeued-fields s, set_interest-fields (set_dequeued s) (record { bits = 0 }))

-- The word has its read position at the write position.
pub polled_state-token_read_pos :
    (s : ReadinessState) → token_read_pos (polled_state s) ≡ token_write_pos s
polled_state-token_read_pos s =
    rw (polled_before s, read_pos_field, write_pos_field, update_token_read_pos-fields)
      (before-fields s).0

-- A queued word stays queued if it is level-triggered and ready.
pub polled_state-is_queued :
    (s : ReadinessState)
    → is_queued s ≡ true
    → is_queued (polled_state s) ≡ (not (is_edge s) && not (is_idle s))
polled_state-is_queued s h =
    rw
      (
        polled_before s,
        queued_field,
        update_token_read_pos-fields,
        (before-fields s).1,
        sym (queued_field s),
        h,
      )
      (ground arith)
