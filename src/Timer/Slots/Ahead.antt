-- ===== src/Timer/Slots/Ahead.antt =====
-- How much of a slot is left when the poll of src/timer.rs stands at one of its entries.
use sickle.Base.{
  ap, ℕ, ◌+◌, ◌<◌, ◌≤◌, ◌≡◌, ◌≢◌, refl, ◌⊎◌, inl, inr, true, false, some, List, [], ◌∷◌, ◌==◌,
  arith, Bool-cases, if◌then◌else◌,
}
use sickle.Timer.Defs.{empty, Entry}
use sickle.Timer.Slots.Links.{mem, Distinct, first, Entries, Linked}
use sickle.Timer.Slots.Erase.{Cell-links, first-mem, mem-empty, next-mem}

abbrev pub size : List ℕ → ℕ
size [] = 0
size (x ∷ xs) = size xs + 1

-- The entries from `k` on.
abbrev pub ahead : ℕ → List ℕ → ℕ
ahead k [] = 0
ahead k (x ∷ xs) = let rest = ahead k xs in if k == x then size xs + 1 else rest

pub ahead-first : (ks : List ℕ) → mem empty ks ≡ false → ahead (first ks) ks ≡ size ks
ahead-first [] h = refl
ahead-first (x ∷ xs) h = ground arith

pub ahead-le : (k : ℕ) (ks : List ℕ) → ahead k ks ≤ size ks
ahead-le k [] = omega arith
ahead-le k (x ∷ xs) = let ih = ahead-le k xs in ground arith

pub ahead-mem : (k : ℕ) (ks : List ℕ) → mem k ks ≡ true → 0 < ahead k ks
ahead-mem k [] h = cc
ahead-mem k (x ∷ xs) h = let ih = ahead-mem k xs in ground arith

-- Keys with as much ahead are the same.
pub ahead-injective :
    (j k : ℕ) (ks : List ℕ)
    → mem j ks ≡ true
    → mem k ks ≡ true
    → ahead j ks ≡ ahead k ks
    → ◌≡◌ {A = ℕ} j k
ahead-injective j k [] m m' h = cc
ahead-injective j k (x ∷ xs) m m' h =
    let a = ahead-le j xs in
    let b = ahead-le k xs in
    elim (Bool-cases (j == x)) [
      | inl same ↦ elim (Bool-cases (k == x)) [
        | inl same' ↦ ground arith
        | inr other' ↦ absurd (ground arith)
      ]
      | inr other ↦ elim (Bool-cases (k == x)) [
        | inl same' ↦ absurd (ground arith)
        | inr other' ↦ ahead-injective j k xs (ground arith) (ground arith) (ground arith)
      ]
    ]

pub ahead-empty : (ks : List ℕ) → mem empty ks ≡ false → ahead empty ks ≡ 0
ahead-empty [] h = refl
ahead-empty (x ∷ xs) h = ground (arith, ahead-empty xs)

-- What is empty or of the rest of the list is not its first key.
not_first :
    (j x : ℕ) (xs : List ℕ)
    → x ≢ empty
    → mem x xs ≡ false
    → (j ≡ empty) ⊎ (mem j xs ≡ true)
    → (j == x) ≡ false
not_first j x xs real out (inl h) = ground arith
not_first j x xs real out (inr m) = elim (Bool-cases (j == x)) [
  | inl same ↦ let at : j ≡ x = ground arith in absurd (ground (arith, ap (λ i. mem i xs) at))
  | inr other ↦ other
]

one_less_later :
    (j k x : ℕ) (xs : List ℕ)
    → (j == x) ≡ false
    → (k == x) ≡ false
    → ahead k xs ≡ ahead j xs + 1
    → ahead k (x ∷ xs) ≡ ahead j (x ∷ xs) + 1
one_less_later j k x xs a b h = rw (a, b) h

one_less_first :
    (j k x : ℕ) (xs : List ℕ)
    → (j == x) ≡ false
    → (k == x) ≡ true
    → ahead j xs ≡ size xs
    → ahead k (x ∷ xs) ≡ ahead j (x ∷ xs) + 1
one_less_first j k x xs a b h = rw (a, b) (omega arith)

module _ {T : Type 0} (entries : Entries T) (mask slot : ℕ) where
  -- Going on to the next entry leaves one less ahead.
  pub ahead-next :
      (prev k : ℕ) (e : Entry T) (ks : List ℕ)
      → mem k ks ≡ true
      → Distinct ks
      → entries k ≡ some e
      → Linked entries mask slot prev ks
      → ahead k ks ≡ ahead e.links.next ks + 1
  ahead-next prev k e [] m d live h = cc
  ahead-next prev k e (x ∷ xs) m d live h = elim (Bool-cases (k == x)) [
    | inl same ↦
        let at : k ≡ x = ground arith in
        let (_, leads, _) = Cell-links entries mask slot x prev (first xs) e h.0 (rw (← at) live) in
        one_less_first e.links.next k x xs
          (rw leads (not_first (first xs) x xs h.0.real d.0 (first-mem entries mask slot xs))) same
          (rw leads (ahead-first xs (mem-empty entries mask slot x xs h.1)))
    | inr other ↦
        let next = next-mem entries mask slot x k e xs (ground arith) live h.1 in
        one_less_later e.links.next k x xs (not_first e.links.next x xs h.0.real d.0 next) other
          (ahead-next x k e xs (ground arith) d.1 live h.1)
  ]
