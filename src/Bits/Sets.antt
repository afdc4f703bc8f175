-- ===== src/Bits/Sets.antt =====
-- Words as sets of bits: `|` inserts, `& !` removes, and a set keeps its other members.
use native.Mathlib.Nat.{pow-suc, one-le-pow}
use sickle.Base.{ℕ, zero, suc, ◌-◌, ◌/◌, ◌%◌, ◌^◌, ◌<◌, min, max, ◌≡◌, arith}
use Prim.Native.Nat.{bit_and, bit_or}
use sickle.Bits.Step.{bit_and_step, bit_or_step, bit_and-zero}

module _ (a b : ℕ) where
  half-and : bit_and a b / 2 ≡ bit_and (a / 2) (b / 2)
  half-and = omega (arith, bit_and_step a b)

  odd-and : bit_and a b % 2 ≡ min (a % 2) (b % 2)
  odd-and = omega (arith, bit_and_step a b)

  half-or : bit_or a b / 2 ≡ bit_or (a / 2) (b / 2)
  half-or = omega (arith, bit_or_step a b)

  odd-or : bit_or a b % 2 ≡ max (a % 2) (b % 2)
  odd-or = omega (arith, bit_or_step a b)

  -- A number is given by its last digit and the rest.
  eq_of_halves : a / 2 ≡ b / 2 → a % 2 ≡ b % 2 → a ≡ b
  eq_of_halves p q = omega arith

module _ (k b : ℕ) (h : b < 2 ^ suc k) where
  half-lt : b / 2 < 2 ^ k
  half-lt = omega (arith, pow-suc 2 k)

  half-not : (2 ^ suc k - 1 - b) / 2 ≡ 2 ^ k - 1 - b / 2
  half-not = omega (arith, pow-suc 2 k, one-le-pow k 2)

  odd-not : (2 ^ suc k - 1 - b) % 2 ≡ 1 - b % 2
  odd-not = omega (arith, pow-suc 2 k, one-le-pow k 2)

-- Below `2 ^ 0` there is only the empty set.
and_no_digits : (a b : ℕ) → b < 2 ^ 0 → bit_and a b ≡ 0
and_no_digits a b h = let e : b ≡ 0 = omega arith in rw e (bit_and-zero a)

-- `(a | b) & b` is `b`.
pub or-and_absorb : (k a b : ℕ) → b < 2 ^ k → bit_and (bit_or a b) b ≡ b
or-and_absorb zero a b h = omega (arith, and_no_digits (bit_or a b) b h)
or-and_absorb (suc k) a b h =
    eq_of_halves (bit_and (bit_or a b) b) b
      (rw (half-and, half-or) (or-and_absorb k (a / 2) (b / 2) (half-lt k b h)))
      (rw (odd-and, odd-or) (omega arith))

-- `(a & !b) & b` is empty.
pub and-not-and : (k a b : ℕ) → b < 2 ^ k → bit_and (bit_and a (2 ^ k - 1 - b)) b ≡ 0
and-not-and zero a b h = and_no_digits (bit_and a (2 ^ 0 - 1 - b)) b h
and-not-and (suc k) a b h =
    eq_of_halves (bit_and (bit_and a (2 ^ suc k - 1 - b)) b) 0
      (rw (half-and, half-and, half-not k b h) (and-not-and k (a / 2) (b / 2) (half-lt k b h)))
      (rw (odd-and, odd-and, odd-not k b h) (omega arith))

-- A set that shares nothing with `b` is the same in `a & !b` as in `a`.
pub and-not-and_disjoint :
    (k a b c : ℕ)
    → b < 2 ^ k
    → c < 2 ^ k
    → bit_and c b ≡ 0
    → bit_and (bit_and a (2 ^ k - 1 - b)) c ≡ bit_and a c
and-not-and_disjoint zero a b c h g e =
    omega (arith, and_no_digits (bit_and a (2 ^ 0 - 1 - b)) c g, and_no_digits a c g)
and-not-and_disjoint (suc k) a b c h g e =
    eq_of_halves (bit_and (bit_and a (2 ^ suc k - 1 - b)) c) (bit_and a c)
      (rw (half-and, half-and, half-and, half-not k b h)
        (and-not-and_disjoint k (a / 2) (b / 2) (c / 2) (half-lt k b h) (half-lt k c g)
          (omega (arith, half-and c b))))
      (rw (odd-and, odd-and, odd-and, odd-not k b h) (omega (arith, odd-and c b)))

-- A set that shares nothing with `b` is the same in `a | b` as in `a`.
pub or-and_disjoint :
    (k a b c : ℕ) → c < 2 ^ k → bit_and c b ≡ 0 → bit_and (bit_or a b) c ≡ bit_and a c
or-and_disjoint zero a b c g e = omega (arith, and_no_digits (bit_or a b) c g, and_no_digits a c g)
or-and_disjoint (suc k) a b c g e =
    eq_of_halves (bit_and (bit_or a b) c) (bit_and a c)
      (rw (half-and, half-or, half-and)
        (or-and_disjoint k (a / 2) (b / 2) (c / 2) (half-lt k c g) (omega (arith, half-and c b))))
      (rw (odd-and, odd-or, odd-and) (omega (arith, odd-and c b)))
