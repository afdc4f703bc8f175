-- ===== src/ReadinessState/Defs.antt =====
-- `ReadinessState` of src/poll.rs: one machine word with seven fields. From the low end they are
-- readiness (4 bits), interest (4), options (4), read position (2), write position (2), the queued
-- bit and the dropped bit.
use sickle.Base.{ℕ, zero, suc, ◌-◌, Bool, true, false, Option, none, some, ◌==◌, if◌then◌else◌}
use sickle.Bits.{bit_and, bit_or, bit_not, ◌<<<◌, ◌>>>◌}
use sickle.Ready
use sickle.Ready.{Ready}
use sickle.PollOpt
use sickle.PollOpt.{PollOpt}

abbrev pub readiness_shift : ℕ
readiness_shift = 0

abbrev pub interest_shift : ℕ
interest_shift = 4

abbrev pub poll_opt_shift : ℕ
poll_opt_shift = 8

abbrev pub token_rd_shift : ℕ
token_rd_shift = 12

abbrev pub token_wr_shift : ℕ
token_wr_shift = 14

abbrev pub mask_2 : ℕ
mask_2 = 4 - 1

abbrev pub mask_4 : ℕ
mask_4 = 16 - 1

abbrev pub queued_mask : ℕ
queued_mask = 1 <<< 16

abbrev pub dropped_mask : ℕ
dropped_mask = 1 <<< 17

pub record ReadinessState : Type 0 where
  pub bits : ℕ

abbrev pub state_of : ℕ → ReadinessState
state_of n = record { bits = n }

-- `ReadinessState::new`, without its debug assertions.
unfoldable pub new : Ready → PollOpt → ReadinessState
new interest opt =
    let val = Ready.as_usize interest <<< interest_shift in
    state_of (bit_or val (PollOpt.opt_as_usize opt <<< poll_opt_shift))

unfoldable pub get : ReadinessState → ℕ → ℕ → ℕ
get s mask shift = bit_and (s.bits >>> shift) mask

unfoldable pub set : ReadinessState → ℕ → ℕ → ℕ → ReadinessState
set s val mask shift = state_of (bit_or (bit_and s.bits (bit_not (mask <<< shift))) (val <<< shift))

unfoldable pub readiness : ReadinessState → Ready
unfolding get
readiness s = Ready.from_usize (get s mask_4 readiness_shift)

unfoldable pub interest : ReadinessState → Ready
unfolding get
interest s = Ready.from_usize (get s mask_4 interest_shift)

unfoldable pub poll_opt : ReadinessState → PollOpt
unfolding get
poll_opt s = PollOpt.opt_from_usize (get s mask_4 poll_opt_shift)

unfoldable pub effective_readiness : ReadinessState → Ready
unfolding readiness interest Ready.bitand
effective_readiness s = Ready.bitand (readiness s) (interest s)

unfoldable pub set_readiness : ReadinessState → Ready → ReadinessState
unfolding set
set_readiness s v = set s (Ready.as_usize v) mask_4 readiness_shift

unfoldable pub set_interest : ReadinessState → Ready → ReadinessState
unfolding set
set_interest s v = set s (Ready.as_usize v) mask_4 interest_shift

unfoldable pub set_poll_opt : ReadinessState → PollOpt → ReadinessState
unfolding set
set_poll_opt s v = set s (PollOpt.opt_as_usize v) mask_4 poll_opt_shift

unfoldable pub disarm : ReadinessState → ReadinessState
unfolding set_interest
disarm s = set_interest s Ready.empty

unfoldable pub is_queued : ReadinessState → Bool
is_queued s = bit_and s.bits queued_mask == queued_mask

unfoldable pub is_dropped : ReadinessState → Bool
is_dropped s = bit_and s.bits dropped_mask == dropped_mask

unfoldable pub set_queued : ReadinessState → ReadinessState
set_queued s = state_of (bit_or s.bits queued_mask)

unfoldable pub set_dequeued : ReadinessState → ReadinessState
set_dequeued s = state_of (bit_and s.bits (bit_not queued_mask))

unfoldable pub token_read_pos : ReadinessState → ℕ
unfolding get
token_read_pos s = get s mask_2 token_rd_shift

unfoldable pub token_write_pos : ReadinessState → ℕ
unfolding get
token_write_pos s = get s mask_2 token_wr_shift

unfoldable pub set_token_write_pos : ReadinessState → ℕ → ReadinessState
unfolding set
set_token_write_pos s val = set s val mask_2 token_wr_shift

unfoldable pub update_token_read_pos : ReadinessState → ReadinessState
unfolding set token_write_pos
update_token_read_pos s = set s (token_write_pos s) mask_2 token_rd_shift

-- The table of `next_token_pos`, by write position and read position; `none` is `unreachable!()`.
unfoldable pub free_pos : (wr rd : ℕ) → Option ℕ
free_pos zero (suc zero) = some 2
free_pos zero (suc (suc zero)) = some 1
free_pos zero zero = some 1
free_pos (suc zero) zero = some 2
free_pos (suc zero) (suc (suc zero)) = some 0
free_pos (suc zero) (suc zero) = some 2
free_pos (suc (suc zero)) zero = some 1
free_pos (suc (suc zero)) (suc zero) = some 0
free_pos (suc (suc zero)) (suc (suc zero)) = some 0
free_pos _ _ = none

unfoldable pub next_token_pos : ReadinessState → Option ℕ
unfolding free_pos token_read_pos token_write_pos
next_token_pos s = free_pos (token_write_pos s) (token_read_pos s)

-- `AtomicState::flag_as_dropped`: the new word, and whether the caller has to enqueue the node.
unfoldable pub flag_as_dropped : ReadinessState → ReadinessState × Bool
unfolding is_queued
flag_as_dropped s = (
  state_of (bit_or s.bits (bit_or dropped_mask queued_mask)),
  if is_queued s then false else true,
)
