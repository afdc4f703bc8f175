-- ===== src/Bits/Field.antt =====
-- One field of a word: clearing it by `& !(mask << shift)` and filling it by `| (value << shift)`,
-- as arithmetic; and the test of a single bit.
use sickle.Base.{ℕ, ◌+◌, ◌-◌, ◌*◌, ◌/◌, ◌%◌, ◌^◌, ◌<◌, ◌≡◌, ap, ap₂, ◌∙◌, arith}
use native.Mathlib.Nat.{one-le-pow, div_self, mod_self}
use sickle.Bits.Step.{bit_and_cut, bit_or_cut, bit_or_parts, bit_or_step, bit_and-zero}
use sickle.Bits.Words.{bit_and, bit_or, ◌<<<◌, bit_and_mask, bit_or-zero, zero-bit_or}

-- `keep` has `k` zeros from digit `s` on, and ones elsewhere below digit `s + k + h`.
pub clear_field :
    (s k h x keep : ℕ)
    → keep / 2 ^ s / 2 ^ k ≡ 2 ^ h - 1
    → keep / 2 ^ s % 2 ^ k ≡ 0
    → keep % 2 ^ s ≡ 2 ^ s - 1
    → bit_and x keep ≡ x / 2 ^ s / 2 ^ k % 2 ^ h * 2 ^ k * 2 ^ s + x % 2 ^ s % 2 ^ s
clear_field s k h x keep high gap low =
    rw
      (
        bit_and_cut s x keep,
        bit_and_cut k (x / 2 ^ s) (keep / 2 ^ s),
        high,
        gap,
        low,
        bit_and_mask h (x / 2 ^ s / 2 ^ k),
        bit_and_mask s (x % 2 ^ s),
        bit_and-zero (x / 2 ^ s % 2 ^ k),
      )
      (omega arith)

-- A value that fits `k` bits goes into a cleared field.
pub fill_field :
    (s k hi lo v : ℕ)
    → lo < 2 ^ s
    → v < 2 ^ k
    → bit_or (hi * 2 ^ k * 2 ^ s + lo) (v * 2 ^ s) ≡ (hi * 2 ^ k + v) * 2 ^ s + lo
fill_field s k hi lo v lo_fits v_fits =
    let pos_s : 0 < 2 ^ s = one-le-pow s 2 (omega arith) in
    let pos_k : 0 < 2 ^ k = one-le-pow k 2 (omega arith) in
    let inner : bit_or (hi * 2 ^ k) v ≡ hi * 2 ^ k + v =
      ap₂ bit_or (omega arith) (omega arith)
      ∙ bit_or_parts k hi 0 0 v pos_k v_fits
      ∙ ap₂ (λ (a b : ℕ). a * 2 ^ k + b) (bit_or-zero hi) (zero-bit_or v) in
    ap (bit_or (hi * 2 ^ k * 2 ^ s + lo)) (omega arith)
    ∙ bit_or_parts s (hi * 2 ^ k) v lo 0 lo_fits pos_s
    ∙ ap₂ (λ (a b : ℕ). a * 2 ^ s + b) inner (bit_or-zero lo)

-- Both in a row, where the shifted value does not overflow.
pub put_field :
    (s k h x v keep : ℕ)
    → keep / 2 ^ s / 2 ^ k ≡ 2 ^ h - 1
    → keep / 2 ^ s % 2 ^ k ≡ 0
    → keep % 2 ^ s ≡ 2 ^ s - 1
    → v < 2 ^ k
    → (v <<< s) ≡ v * 2 ^ s
    → bit_or (bit_and x keep) (v <<< s)
      ≡ (x / 2 ^ s / 2 ^ k % 2 ^ h * 2 ^ k + v) * 2 ^ s + x % 2 ^ s % 2 ^ s
put_field s k h x v keep high gap low v_fits shifts =
    rw (shifts, clear_field s k h x keep high gap low)
      (fill_field s k (x / 2 ^ s / 2 ^ k % 2 ^ h) (x % 2 ^ s % 2 ^ s) v
        (ground (arith, one-le-pow s 2)) v_fits)

-- The bit at `s`: its test, and its value under `|` and `& !`.
pub bit_at : (s x : ℕ) → bit_and x (2 ^ s) ≡ x / 2 ^ s % 2 * 2 ^ s
bit_at s x =
    let pos : 0 < 2 ^ s = one-le-pow s 2 (omega arith) in
    let top : 2 ^ s / 2 ^ s ≡ 1 = div_self pos in
    let bottom : 2 ^ s % 2 ^ s ≡ 0 = mod_self (2 ^ s) in
    rw (bit_and_cut s x (2 ^ s), top, bottom, bit_and-zero (x % 2 ^ s), bit_and_mask 1 (x / 2 ^ s))
      (omega arith)

pub set_bit : (s x : ℕ) → bit_or x (2 ^ s) ≡ bit_or (x / 2 ^ s) 1 * 2 ^ s + x % 2 ^ s
set_bit s x =
    let pos : 0 < 2 ^ s = one-le-pow s 2 (omega arith) in
    let top : 2 ^ s / 2 ^ s ≡ 1 = div_self pos in
    let bottom : 2 ^ s % 2 ^ s ≡ 0 = mod_self (2 ^ s) in
    rw (bit_or_cut s x (2 ^ s), top, bottom, bit_or-zero (x % 2 ^ s))

pub bit_or-one : (x : ℕ) → bit_or x 1 ≡ x / 2 * 2 + 1
bit_or-one x = omega (arith, bit_or_step x 1, bit_or-zero (x / 2))
