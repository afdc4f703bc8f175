-- ===== src/Poll/Lock/Count.antt =====
-- A family of threads with one changed: what holds of it, and a weight added up over it.
use sickle.Base.{ℕ, zero, suc, ◌+◌, ◌*◌, ◌≤◌, ◌<◌, ◌≡◌, ◌≢◌, refl, update, arith, Bool, true, ◌⊎◌}

module _ {A : Type 0} (weight : A → ℕ) where
  pub total : (ℕ → A) → ℕ → ℕ
  total family zero = 0
  total family (suc n) = weight (family n) + total family n

  -- Beyond the threads that are counted, a change is not seen.
  total-update_beyond :
      (family : ℕ → A) (a : A) (n k : ℕ) → n ≤ k → total (update family k a) n ≡ total family n
  unfolding total
  total-update_beyond family a zero k h = refl
  total-update_beyond family a (suc n) k h = ground (arith, total-update_beyond family a n k)

  pub total-update :
      (family : ℕ → A) (a : A) (n k : ℕ)
      → k < n
      → total (update family k a) n + weight (family k) ≡ total family n + weight a
  unfolding total
  total-update family a zero k h = absurd (omega arith)
  total-update family a (suc n) k h =
      ground (arith, total-update family a n k, total-update_beyond family a n k)

  pub weight-le-total : (family : ℕ → A) (n k : ℕ) → k < n → weight (family k) ≤ total family n
  unfolding total
  weight-le-total family zero k h = absurd (omega arith)
  weight-le-total family (suc n) k h = ground (arith, weight-le-total family n k)

  pub two_weights-le-total :
      (family : ℕ → A) (n j k : ℕ)
      → j < n
      → k < n
      → j ≢ k
      → weight (family j) + weight (family k) ≤ total family n
  unfolding total
  two_weights-le-total family zero j k h g ne = absurd (omega arith)
  two_weights-le-total family (suc n) j k h g ne = ground (
    arith,
    two_weights-le-total family n j k,
    weight-le-total family n j,
    weight-le-total family n k,
  )

  pub total-le :
      (family : ℕ → A) (bound n : ℕ) → ((a : A) → weight a ≤ bound) → total family n ≤ n * bound
  unfolding total
  total-le family bound zero h = omega arith
  total-le family bound (suc n) h = grind (arith, total-le family bound n h, h (family n))

  pub total-zero :
      (family : ℕ → A) (n : ℕ) → ((k : ℕ) → k < n → weight (family k) ≡ 0) → total family n ≡ 0
  unfolding total
  total-zero family zero h = refl
  total-zero family (suc n) h =
      omega (arith, h n (omega arith), total-zero family n (λ k lt. h k (omega arith)))

-- A test of a member, after a change at `i`.
module _ {A : Type 0} (test : A → Bool) (family : ℕ → A) (i : ℕ) (a : A) where
  pub test-update :
      (k : ℕ)
      → test (update family i a k) ≡ true
      → ((k ≡ i) × (test a ≡ true)) ⊎ (test (family k) ≡ true)
  test-update k h = ground arith

  pub update-test :
      (k : ℕ) → test (family k) ≡ true → (k ≡ i → test a ≡ true) → test (update family i a k) ≡ true
  update-test k h g = ground arith

  pub update-test_self : test a ≡ true → test (update family i a i) ≡ true
  update-test_self h = ground arith
