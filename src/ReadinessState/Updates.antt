-- ===== src/ReadinessState/Updates.antt =====
-- The operations of `ReadinessState` against the seven fields taken apart.
use sickle.Base.{
  ℕ, zero, suc, ◌+◌, ◌*◌, ◌/◌, ◌%◌, ◌^◌, ◌<◌, ◌≡◌, ◌≢◌, refl, ◌∙◌, Bool, true, false, not,
  if◌then◌else◌, some, arith,
}
use sickle.Bits.{bit_or, ◌<<<◌, bit_or_step, bit_or-one, bit_or_cut, bit_or-zero, fill_field}
use sickle.Ready.{Ready}
use sickle.PollOpt.{PollOpt}
use sickle.ReadinessState.Defs.{
  ReadinessState, new, set_readiness, set_interest, set_poll_opt, set_queued, set_dequeued,
  set_token_write_pos, update_token_read_pos, disarm, next_token_pos, token_read_pos,
  token_write_pos, flag_as_dropped, is_queued, free_pos,
}
use sickle.ReadinessState.Laws.{
  fields, fields-digits, readiness-bits, interest-bits, poll_opt-bits, read_pos-bits,
  write_pos-bits, queued-bits, dequeued-bits,
}

module _ (s : ReadinessState) where
  pub set_readiness-fields :
      (v : Ready)
      → v.bits < 16
      → fields (set_readiness s v) ≡ record (fields s) { readiness = v.bits }
  set_readiness-fields v h =
      rw (fields-digits, fields-digits) (ground (arith, readiness-bits s v h))

  pub set_interest-fields :
      (v : Ready)
      → v.bits < 16
      → fields (set_interest s v) ≡ record (fields s) { interest = v.bits }
  set_interest-fields v h = rw (fields-digits, fields-digits) (ground (arith, interest-bits s v h))

  pub set_poll_opt-fields :
      (v : PollOpt)
      → v.bits < 16
      → fields (set_poll_opt s v) ≡ record (fields s) { poll_opt = v.bits }
  set_poll_opt-fields v h = rw (fields-digits, fields-digits) (ground (arith, poll_opt-bits s v h))

  pub update_token_read_pos-fields :
      fields (update_token_read_pos s) ≡ record (fields s) { read_pos = (fields s).write_pos }
  update_token_read_pos-fields = rw (fields-digits, fields-digits) (ground (arith, read_pos-bits s))

  pub set_token_write_pos-fields :
      (v : ℕ) → v < 4 → fields (set_token_write_pos s v) ≡ record (fields s) { write_pos = v }
  set_token_write_pos-fields v h =
      rw (fields-digits, fields-digits) (ground (arith, write_pos-bits s v h))

  pub set_queued-fields : fields (set_queued s) ≡ record (fields s) { queued = true }
  set_queued-fields = rw (fields-digits, fields-digits) (ground (arith, queued-bits s))

  pub set_dequeued-fields : fields (set_dequeued s) ≡ record (fields s) { queued = false }
  set_dequeued-fields = rw (fields-digits, fields-digits) (ground (arith, dequeued-bits s))

-- For values that fit their fields, each operation on the word changes just the field that it is named
-- for, whatever the word was: `set_readiness`, `set_interest`, `set_poll_opt` and
-- `set_token_write_pos` store the value, `set_queued` and `set_dequeued` set and clear the queued bit,
-- `update_token_read_pos` copies the write position, and `disarm` empties the interest.
pub update-fields :
    (s : ReadinessState) (v : Ready) (opt : PollOpt) (pos : ℕ)
    → v.bits < 16
    → opt.bits < 16
    → pos < 4
    → (fields (set_readiness s v) ≡ record (fields s) { readiness = v.bits })
      × (fields (set_interest s v) ≡ record (fields s) { interest = v.bits })
      × (fields (set_poll_opt s opt) ≡ record (fields s) { poll_opt = opt.bits })
      × (fields (set_token_write_pos s pos) ≡ record (fields s) { write_pos = pos })
      × (fields (set_queued s) ≡ record (fields s) { queued = true })
      × (fields (set_dequeued s) ≡ record (fields s) { queued = false })
      × (fields (update_token_read_pos s) ≡ record (fields s) { read_pos = (fields s).write_pos })
      × (fields (disarm s) ≡ record (fields s) { interest = 0 })
unfolding disarm
update-fields s v opt pos h h' h'' = (
  set_readiness-fields s v h,
  set_interest-fields s v h,
  set_poll_opt-fields s opt h',
  set_token_write_pos-fields s pos h'',
  set_queued-fields s,
  set_dequeued-fields s,
  update_token_read_pos-fields s,
  set_interest-fields s (record { bits = 0 }) (omega arith),
)

new_word : (a b : ℕ) → a < 16 → b < 16 → bit_or (a <<< 4) (b <<< 8) ≡ b * 256 + a * 16
new_word a b h h' =
    rw
      (
        (let e : (a <<< 4) ≡ 0 * 2 ^ 4 * 2 ^ 8 + a * 16 = omega arith in e),
        (let e : (b <<< 8) ≡ b * 2 ^ 8 = omega arith in e),
      )
      (fill_field 8 4 0 (a * 16) b (omega arith) h' ∙ omega arith)

-- A new word holds the interest and the options, and is clear otherwise.
pub new-fields :
    (i : Ready) (opt : PollOpt)
    → i.bits < 16
    → opt.bits < 16
    → fields (new i opt) ≡ record {
      readiness = 0;
      interest = i.bits;
      poll_opt = opt.bits;
      read_pos = 0;
      write_pos = 0;
      queued = false;
      dropped = false;
    }
unfolding new
new-fields i opt h h' = rw fields-digits (ground (arith, new_word i.bits opt.bits h h'))

bit_or-three : (x : ℕ) → bit_or x 3 ≡ x / 4 * 4 + 3
bit_or-three x = omega (arith, bit_or_step x 3, bit_or-one (x / 2))

pub queued_field : (s : ReadinessState) → is_queued s ≡ (fields s).queued
unfolding fields
queued_field s = refl

pub read_pos_field : (s : ReadinessState) → token_read_pos s ≡ (fields s).read_pos
unfolding fields
read_pos_field s = refl

pub write_pos_field : (s : ReadinessState) → token_write_pos s ≡ (fields s).write_pos
unfolding fields
write_pos_field s = refl

flagged :
    (s : ReadinessState) (b : Bool)
    → b ≡ (fields s).queued
    → (if b then false else true) ≡ not (fields s).queued
flagged s b e = ground (arith, e)

-- Dropping sets the dropped and the queued bit and keeps the rest; the caller is told to enqueue the
-- node exactly when it was not queued before.
pub flag_as_dropped-fields :
    (s : ReadinessState)
    → (fields (flag_as_dropped s).0 ≡ record (fields s) { queued = true; dropped = true })
      × ((flag_as_dropped s).1 ≡ not (fields s).queued)
unfolding flag_as_dropped
flag_as_dropped-fields s = (
  rw (fields-digits, fields-digits)
      (ground (
        arith,
        bit_or_cut 16 s.bits 0x30000,
        bit_or-zero (s.bits % 65536),
        bit_or-three (s.bits / 65536),
      )),
  flagged s (is_queued s) (queued_field s),
)

free_pos_lem :
    (wr rd : ℕ)
    → wr < 3
    → rd < 3
    → (p : ℕ) × (free_pos wr rd ≡ some p) × (p < 3) × (p ≢ wr) × (p ≢ rd)
unfolding free_pos
free_pos_lem zero zero h g = (1, refl, omega arith, omega arith, omega arith)
free_pos_lem zero (suc zero) h g = (2, refl, omega arith, omega arith, omega arith)
free_pos_lem zero (suc (suc zero)) h g = (1, refl, omega arith, omega arith, omega arith)
free_pos_lem (suc zero) zero h g = (2, refl, omega arith, omega arith, omega arith)
free_pos_lem (suc zero) (suc zero) h g = (2, refl, omega arith, omega arith, omega arith)
free_pos_lem (suc zero) (suc (suc zero)) h g = (0, refl, omega arith, omega arith, omega arith)
free_pos_lem (suc (suc zero)) zero h g = (1, refl, omega arith, omega arith, omega arith)
free_pos_lem (suc (suc zero)) (suc zero) h g = (0, refl, omega arith, omega arith, omega arith)
free_pos_lem (suc (suc zero)) (suc (suc zero)) h g =
    (0, refl, omega arith, omega arith, omega arith)
free_pos_lem wr (suc (suc (suc rd))) h g = absurd (omega arith)
free_pos_lem (suc (suc (suc wr))) rd h g = absurd (omega arith)

-- `update` writes the new token to a slot that no reader uses: for positions below 3 the next position
-- is found, is below 3 and differs from the write position and the read position.
pub next_token_pos_lem :
    (s : ReadinessState)
    → token_read_pos s < 3
    → token_write_pos s < 3
    → (p : ℕ) × (next_token_pos s ≡ some p)
      × (p < 3)
      × (p ≢ token_write_pos s)
      × (p ≢ token_read_pos s)
unfolding next_token_pos
next_token_pos_lem s rd_ok wr_ok = free_pos_lem (token_write_pos s) (token_read_pos s) wr_ok rd_ok
