-- ===== src/Base/Results.antt =====
-- Results of code that may panic, and of loops that run on fuel.
use Prim.Native.Nat.{ℕ}
use mathlib.Core.Bool.{Bool, true, false}
use mathlib.Core.Option.{Option, none, some}
use sickle.Base.Tests.{◌==◌, if◌then◌else◌}

pub data Outcome {ℓ} (A : Type ℓ) : Type ℓ where
  ok : A → Outcome A
  panic : Outcome A
  out_of_fuel : Outcome A

infixl 5 ◌>>=◌ ◌>>◌
abbrev pub ◌>>=◌ {ℓ κ} : {A : Type ℓ} {B : Type κ} → Outcome A → (A → Outcome B) → Outcome B
ok a >>= f = f a
panic >>= f = panic
out_of_fuel >>= f = out_of_fuel

abbrev pub ◌>>◌ {ℓ κ} : {A : Type ℓ} {B : Type κ} → Outcome A → Outcome B → Outcome B
m >> k = m >>= λ _. k

-- `unwrap`, and the indexing of a container: a missing value is a panic.
abbrev pub unwrap {ℓ} : {A : Type ℓ} → Option A → Outcome A
unwrap none = panic
unwrap (some a) = ok a

-- A map with one entry changed.
abbrev pub update {ℓ} : {A : Type ℓ} → (ℕ → A) → ℕ → A → ℕ → A
update f k v j = if j == k then v else f j

-- `io::ErrorKind`, as far as the program tells kinds apart.
pub data ErrorKind : Type 0 where
  interrupted would_block other : ErrorKind

abbrev pub is_interrupted : ErrorKind → Bool
is_interrupted ErrorKind.interrupted = true
is_interrupted ErrorKind.would_block = false
is_interrupted ErrorKind.other = false

abbrev pub is_would_block : ErrorKind → Bool
is_would_block ErrorKind.interrupted = false
is_would_block ErrorKind.would_block = true
is_would_block ErrorKind.other = false

-- `io::Result`
pub data IoResult {ℓ} (A : Type ℓ) : Type ℓ where
  success : A → IoResult A
  failure : ErrorKind → IoResult A

-- What a result satisfies if there is one.
abbrev pub After {ℓ κ} : {A : Type ℓ} → (A → Type κ) → Outcome A → Type κ
After P (ok a) = P a
After P panic = Unit
After P out_of_fuel = Unit

module _ {ℓ κ} {A B : Type ℓ} (P : A → Type κ) (Q : B → Type κ) where
  pub After-bind :
      (m : Outcome A) (k : A → Outcome B)
      → After P m
      → ((a : A) → P a → After Q (k a))
      → After Q (m >>= k)
  After-bind (ok a) k h step = step a h
  After-bind panic k h step = tt
  After-bind out_of_fuel k h step = tt

module _ {ℓ κ} {A : Type ℓ} (P : A → Type κ) where
  pub After-if : (b : Bool) (x y : Outcome A) → After P x → After P y → After P (if b then x else y)
  After-if true x y h g = h
  After-if false x y h g = g

  pub After-last {μ} :
      {C : Type μ} (m : Outcome C) (k : C → Outcome A)
      → ((c : C) → After P (k c))
      → After P (m >>= k)
  After-last (ok c) k step = step c
  After-last panic k step = tt
  After-last out_of_fuel k step = tt
