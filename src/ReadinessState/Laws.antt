-- ===== src/ReadinessState/Laws.antt =====
-- The word read field by field, and what each operation does to all of the fields.
use sickle.Base.{ℕ, ◌+◌, ◌*◌, ◌/◌, ◌%◌, ◌^◌, ◌<◌, ◌≡◌, refl, Bool, ◌==◌, arith}
use sickle.Bits.{
  bit_and, bit_not, ◌<<<◌, bit_and_mask, put_field, clear_field, bit_at, set_bit, bit_or-one,
}
use sickle.Ready.{Ready}
use sickle.PollOpt.{PollOpt}
use sickle.ReadinessState.Defs.{
  ReadinessState, readiness, interest, poll_opt, effective_readiness, is_queued, is_dropped,
  token_read_pos, token_write_pos, set_readiness, set_interest, set_poll_opt, set_queued,
  set_dequeued, set_token_write_pos, update_token_read_pos,
}

-- The seven fields, as independent components.
pub record Fields : Type 0 where
  pub readiness : ℕ
  pub interest : ℕ
  pub poll_opt : ℕ
  pub read_pos : ℕ
  pub write_pos : ℕ
  pub queued : Bool
  pub dropped : Bool

-- What the accessors of the source show of a word.
unfoldable pub fields : ReadinessState → Fields
fields s = record {
  readiness = (readiness s).bits;
  interest = (interest s).bits;
  poll_opt = (poll_opt s).bits;
  read_pos = token_read_pos s;
  write_pos = token_write_pos s;
  queued = is_queued s;
  dropped = is_dropped s;
}

-- The same by arithmetic on the word.
abbrev pub digits : ℕ → Fields
digits x = record {
  readiness = x % 16;
  interest = x / 16 % 16;
  poll_opt = x / 256 % 16;
  read_pos = x / 4096 % 4;
  write_pos = x / 16384 % 4;
  queued = x / 65536 % 2 == 1;
  dropped = x / 131072 % 2 == 1;
}

pub fields-digits : (s : ReadinessState) → fields s ≡ digits s.bits
unfolding fields readiness interest poll_opt token_read_pos token_write_pos is_queued is_dropped
fields-digits s = ground (
  arith,
  bit_and_mask 4 (s.bits / 1),
  bit_and_mask 4 (s.bits / 16),
  bit_and_mask 4 (s.bits / 256),
  bit_and_mask 2 (s.bits / 4096),
  bit_and_mask 2 (s.bits / 16384),
  bit_at 16 s.bits,
  bit_at 17 s.bits,
)

pub effective_readiness-fields :
    (s : ReadinessState)
    → (effective_readiness s).bits ≡ bit_and (fields s).readiness (fields s).interest
unfolding fields effective_readiness
effective_readiness-fields s = refl

-- Each setter, as arithmetic on the word.
module _ (s : ReadinessState) where
  pub readiness-bits :
      (v : Ready) → v.bits < 16 → (set_readiness s v).bits ≡ (s.bits / 16 % 2 ^ 60 * 16 + v.bits)
  unfolding set_readiness
  readiness-bits v h =
      omega
        (arith, put_field 0 4 60 s.bits v.bits (bit_not (15 <<< 0)) refl refl refl h (omega arith))

  pub interest-bits :
      (v : Ready)
      → v.bits < 16
      → (set_interest s v).bits ≡ (s.bits / 256 % 2 ^ 56 * 16 + v.bits) * 16 + s.bits % 16
  unfolding set_interest
  interest-bits v h =
      omega
        (arith, put_field 4 4 56 s.bits v.bits (bit_not (15 <<< 4)) refl refl refl h (omega arith))

  pub poll_opt-bits :
      (v : PollOpt)
      → v.bits < 16
      → (set_poll_opt s v).bits ≡ (s.bits / 4096 % 2 ^ 52 * 16 + v.bits) * 256 + s.bits % 256
  unfolding set_poll_opt
  poll_opt-bits v h =
      omega
        (arith, put_field 8 4 52 s.bits v.bits (bit_not (15 <<< 8)) refl refl refl h (omega arith))

  pub read_pos-bits :
      (update_token_read_pos s).bits
      ≡ (s.bits / 16384 % 2 ^ 50 * 4 + s.bits / 16384 % 4) * 4096 + s.bits % 4096
  unfolding update_token_read_pos
  read_pos-bits = rw (bit_and_mask 2 (s.bits / 2 ^ 14)) (
      omega (
        arith,
        put_field 12 2 50 s.bits (s.bits / 16384 % 4) (bit_not (3 <<< 12)) refl refl refl
            (omega arith) (omega arith),
      ))

  pub write_pos-bits :
      (v : ℕ)
      → v < 4
      → (set_token_write_pos s v).bits ≡ (s.bits / 65536 % 2 ^ 48 * 4 + v) * 16384 + s.bits % 16384
  unfolding set_token_write_pos
  write_pos-bits v h =
      omega (arith, put_field 14 2 48 s.bits v (bit_not (3 <<< 14)) refl refl refl h (omega arith))

  pub queued-bits : (set_queued s).bits ≡ (s.bits / 65536 / 2 * 2 + 1) * 65536 + s.bits % 65536
  unfolding set_queued
  queued-bits = omega (arith, set_bit 16 s.bits, bit_or-one (s.bits / 65536))

  pub dequeued-bits : (set_dequeued s).bits ≡ s.bits / 131072 % 2 ^ 47 * 131072 + s.bits % 65536
  unfolding set_dequeued
  dequeued-bits = omega (arith, clear_field 16 1 47 s.bits (bit_not (1 <<< 16)) refl refl refl)
