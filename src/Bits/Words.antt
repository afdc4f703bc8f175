-- ===== src/Bits/Words.antt =====
-- The program's words: `&`, `|`, `!`, `<<` and `>>` on `usize` (64 bits), and masks of low bits.
pub use Prim.Native.Nat.{bit_and, bit_or, bit_xor}
use sickle.Bits.Step.{bit_and_cut, bit_and_step, bit_or_step, bit_and-zero, by_halving}
use native.Mathlib.Nat.{pow-suc, one-le-pow, div-eq_of_lt, mod-eq_of_lt}
use sickle.Base.{ℕ, zero, suc, ◌-◌, ◌*◌, ◌/◌, ◌%◌, ◌^◌, ◌<◌, ◌≡◌, refl, arith}

abbrev pub word : ℕ
word = 2 ^ 64

-- `!a`
abbrev pub bit_not : ℕ → ℕ
bit_not a = word - 1 - a

infixl 75 ◌<<<◌ ◌>>>◌
abbrev pub ◌<<<◌ : ℕ → ℕ → ℕ
a <<< k = a * 2 ^ k % word

abbrev pub ◌>>>◌ : ℕ → ℕ → ℕ
a >>> k = a / 2 ^ k

pub bit_or-zero : (a : ℕ) → bit_or a 0 ≡ a
bit_or-zero =
    by_halving (λ a. bit_or a 0 ≡ a) refl (λ n half. omega (arith, half, bit_or_step (suc n) 0))

pub zero-bit_or : (a : ℕ) → bit_or 0 a ≡ a
zero-bit_or =
    by_halving (λ a. bit_or 0 a ≡ a) refl (λ n half. omega (arith, half, bit_or_step 0 (suc n)))

-- Numbers that fit the mask pass it whole.
full_mask : (k r : ℕ) → r < 2 ^ k → bit_and r (2 ^ k - 1) ≡ r
full_mask zero zero h = refl
full_mask zero (suc r) h = absurd (omega arith)
full_mask (suc k) r h =
    let low : (2 ^ suc k - 1) / 2 ≡ 2 ^ k - 1 = omega (arith, pow-suc 2 k, one-le-pow k 2) in
    let odd : (2 ^ suc k - 1) % 2 ≡ 1 = omega (arith, pow-suc 2 k, one-le-pow k 2) in
    rw (bit_and_step r (2 ^ suc k - 1), low, odd, full_mask k (r / 2) (omega (arith, pow-suc 2 k)))
      (omega arith)

-- A mask of `k` low bits is the remainder by `2 ^ k`.
pub bit_and_mask : (k a : ℕ) → bit_and a (2 ^ k - 1) ≡ a % 2 ^ k
bit_and_mask k a =
    let none_high : (2 ^ k - 1) / 2 ^ k ≡ 0 = div-eq_of_lt (omega (arith, one-le-pow k 2)) in
    let all_low : (2 ^ k - 1) % 2 ^ k ≡ 2 ^ k - 1 = mod-eq_of_lt (omega (arith, one-le-pow k 2)) in
    let fits : a % 2 ^ k < 2 ^ k = ground (arith, one-le-pow k 2) in
    rw (bit_and_cut k a (2 ^ k - 1), none_high, all_low, bit_and-zero, full_mask k (a % 2 ^ k) fits)
      (omega arith)

zero-bit_and : (b : ℕ) → bit_and 0 b ≡ 0
zero-bit_and =
    by_halving (λ b. bit_and 0 b ≡ 0) refl (λ n half. omega (arith, half, bit_and_step 0 (suc n)))

pub bit_and_comm : (a b : ℕ) → bit_and a b ≡ bit_and b a
bit_and_comm =
    by_halving (λ a. (b : ℕ) → bit_and a b ≡ bit_and b a)
      (λ b. omega (arith, zero-bit_and b, bit_and-zero b))
      (λ n half b. omega (arith, half (b / 2), bit_and_step (suc n) b, bit_and_step b (suc n)))
