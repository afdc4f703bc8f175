-- ===== src/Bits/Step.antt =====
-- `&` and `|` on binary digits: the equation for the lowest digit, and for a cut at any digit.
use Prim.Native.Nat.{digits, bitwise, bit_and, bit_or, bit_and-bitwise, bit_or-bitwise}
use mathlib.Core.WellFounded
use native.Mathlib.Nat.{le_refl, zero-add, pow-suc, one-le-pow}
use sickle.Base.{
  ℕ, zero, suc, ◌+◌, ◌-◌, ◌*◌, ◌/◌, ◌%◌, ◌^◌, ◌≤◌, ◌<◌, min, max, ◌≡◌, refl, sym, ap, ap₂, ◌∙◌,
  arith, lt_wf,
}

-- `bitwise z f a b` reads the digits of `a` and `b` together, with `a` itself as fuel. One more round
-- of fuel changes nothing once the fuel covers `a`, so neither does any surplus.
module _ (z : ℕ → ℕ) (f : ℕ → ℕ → ℕ) where
  one_more_round : (n a b : ℕ) → a ≤ n → digits z f (suc n) a b ≡ digits z f n a b
  one_more_round zero zero b h = refl
  one_more_round zero (suc a) b h = absurd (omega arith)
  one_more_round (suc n) zero b h = refl
  one_more_round (suc n) (suc a) b h = rw (one_more_round n (suc a / 2) (b / 2) (omega arith))

  surplus : (d n a b : ℕ) → a ≤ n → digits z f (d + n) a b ≡ digits z f n a b
  surplus zero n a b h = rw zero-add
  surplus (suc d) n a b h =
      let shift : suc d + n ≡ suc (d + n) = omega arith in
      rw (shift, one_more_round (d + n) a b (omega arith)) (surplus d n a b h)

  lowest_digit :
      (a b : ℕ)
      → bitwise z f (suc a) b ≡ bitwise z f (suc a / 2) (b / 2) * 2 + f (suc a % 2) (b % 2)
  lowest_digit a b =
      let half : ℕ = suc a / 2 in
      let split : (a - half) + half ≡ a = omega arith in
      let settled = surplus (a - half) half half (b / 2) (le_refl half) in
      ap (λ (t : ℕ). digits z f t half (b / 2) * 2 + f (suc a % 2) (b % 2)) (sym split)
      ∙ ap (λ (t : ℕ). t * 2 + f (suc a % 2) (b % 2)) settled

pub bit_or_step : (a b : ℕ) → bit_or a b ≡ max (a % 2) (b % 2) + 2 * bit_or (a / 2) (b / 2)
bit_or_step zero b = simp bit_or-bitwise (omega arith)
bit_or_step (suc a) b = simp bit_or-bitwise (omega (arith, lowest_digit (λ y. y) max a b))

pub bit_and_step : (a b : ℕ) → bit_and a b ≡ min (a % 2) (b % 2) + 2 * bit_and (a / 2) (b / 2)
bit_and_step zero b = simp bit_and-bitwise (omega arith)
bit_and_step (suc a) b = simp bit_and-bitwise (omega (arith, lowest_digit (λ y. 0) min a b))

double_shift : (k q : ℕ) → 2 * (q * 2 ^ k) ≡ q * 2 ^ suc k
double_shift k q =
    let double : 2 ^ suc k ≡ 2 * 2 ^ k = omega (arith, pow-suc 2 k) in
    omega (arith, ap (λ (factor : ℕ). q * factor) double)

pow_mod_lt : (k a : ℕ) → a % 2 ^ k < 2 ^ k
pow_mod_lt k a = ground (arith, one-le-pow k 2)

-- A cut at digit `k`, with the two parts given.
pub bit_and_parts :
    (k p q r s : ℕ)
    → r < 2 ^ k
    → s < 2 ^ k
    → bit_and (p * 2 ^ k + r) (q * 2 ^ k + s) ≡ bit_and p q * 2 ^ k + bit_and r s
bit_and_parts zero p q zero zero hr hs =
    let ep : p * 2 ^ 0 + 0 ≡ p = omega arith in
    let eq : q * 2 ^ 0 + 0 ≡ q = omega arith in rw (ep, eq) (omega arith)
bit_and_parts zero p q zero (suc s) hr hs = absurd (omega arith)
bit_and_parts zero p q (suc r) s hr hs = absurd (omega arith)
bit_and_parts (suc k) p q r s hr hs = ground (
  arith,
  bit_and_step (p * 2 ^ suc k + r) (q * 2 ^ suc k + s),
  bit_and_step r s,
  double_shift k p,
  double_shift k q,
  double_shift k (bit_and p q),
  pow-suc 2 k,
  bit_and_parts k p q (r / 2) (s / 2) (omega (arith, pow-suc 2 k)) (omega (arith, pow-suc 2 k)),
)

pub bit_or_parts :
    (k p q r s : ℕ)
    → r < 2 ^ k
    → s < 2 ^ k
    → bit_or (p * 2 ^ k + r) (q * 2 ^ k + s) ≡ bit_or p q * 2 ^ k + bit_or r s
bit_or_parts zero p q zero zero hr hs =
    let ep : p * 2 ^ 0 + 0 ≡ p = omega arith in
    let eq : q * 2 ^ 0 + 0 ≡ q = omega arith in rw (ep, eq) (omega arith)
bit_or_parts zero p q zero (suc s) hr hs = absurd (omega arith)
bit_or_parts zero p q (suc r) s hr hs = absurd (omega arith)
bit_or_parts (suc k) p q r s hr hs = ground (
  arith,
  bit_or_step (p * 2 ^ suc k + r) (q * 2 ^ suc k + s),
  bit_or_step r s,
  double_shift k p,
  double_shift k q,
  double_shift k (bit_or p q),
  pow-suc 2 k,
  bit_or_parts k p q (r / 2) (s / 2) (omega (arith, pow-suc 2 k)) (omega (arith, pow-suc 2 k)),
)

-- The same for any two numbers.
pub bit_and_cut :
    (k a b : ℕ)
    → bit_and a b ≡ bit_and (a / 2 ^ k) (b / 2 ^ k) * 2 ^ k + bit_and (a % 2 ^ k) (b % 2 ^ k)
bit_and_cut k a b =
    ap₂ bit_and (omega (arith, one-le-pow k 2)) (omega (arith, one-le-pow k 2))
    ∙ bit_and_parts k (a / 2 ^ k) (b / 2 ^ k) (a % 2 ^ k) (b % 2 ^ k) (pow_mod_lt k a)
        (pow_mod_lt k b)

pub bit_or_cut :
    (k a b : ℕ)
    → bit_or a b ≡ bit_or (a / 2 ^ k) (b / 2 ^ k) * 2 ^ k + bit_or (a % 2 ^ k) (b % 2 ^ k)
bit_or_cut k a b =
    ap₂ bit_or (omega (arith, one-le-pow k 2)) (omega (arith, one-le-pow k 2))
    ∙ bit_or_parts k (a / 2 ^ k) (b / 2 ^ k) (a % 2 ^ k) (b % 2 ^ k) (pow_mod_lt k a)
        (pow_mod_lt k b)

-- Induction on the number of digits.
pub by_halving : (P : ℕ → Type 0) → P 0 → ((n : ℕ) → P (suc n / 2) → P (suc n)) → (a : ℕ) → P a
by_halving P base double a = WellFounded.induction lt_wf {C = P} a next
  where
    next : (n : ℕ) → ((m : ℕ) → m < n → P m) → P n
    next zero below = base
    next (suc n) below = double n (below (suc n / 2) (omega arith))

pub bit_and-zero : (a : ℕ) → bit_and a 0 ≡ 0
bit_and-zero =
    by_halving (λ a. bit_and a 0 ≡ 0) refl (λ n half. omega (arith, half, bit_and_step (suc n) 0))
