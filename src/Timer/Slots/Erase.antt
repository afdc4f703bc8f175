-- ===== src/Timer/Slots/Erase.antt =====
-- Taking any one entry out of a slot's list, src/timer.rs.
use sickle.Base.{
  ℕ, ◌≡◌, ◌≢◌, refl, ap, ◌⊎◌, inl, inr, true, false, some, List, [], ◌∷◌, ◌==◌, arith,
  if◌then◌else◌, Bool-cases,
}
use sickle.Bits.{bit_and}
use sickle.Timer.Defs.{empty, EntryLinks, Entry}
use sickle.Timer.Slots.Links.{
  mem, Distinct, first, erase, Entries, Cell, Linked, unlinked, Cell-unlinked,
  Linked-unlinked_front, neighbours,
}

mem-erase : (j k : ℕ) (ks : List ℕ) → mem j ks ≡ false → mem j (erase k ks) ≡ false
mem-erase j k [] h = refl
mem-erase j k (x ∷ xs) h = ground (arith, mem-erase j k xs)

pub Distinct-erase : (k : ℕ) (ks : List ℕ) → Distinct ks → Distinct (erase k ks)
Distinct-erase k [] d = tt
Distinct-erase k (x ∷ xs) d = elim (Bool-cases (x == k)) [
  | inl same ↦ rw same d.1
  | inr other ↦ rw other (mem-erase x k xs d.0, Distinct-erase k xs d.1)
]

pub mem-erase_other : (j k : ℕ) (ks : List ℕ) → j ≢ k → mem j ks ≡ true → mem j (erase k ks) ≡ true
mem-erase_other j k [] ne h = h
mem-erase_other j k (x ∷ xs) ne h = ground (arith, mem-erase_other j k xs)

-- The entry after the erased one is not `x`.
other_than_next :
    (x next p q : ℕ) (xs : List ℕ)
    → x ≢ empty
    → mem x xs ≡ false
    → (next ≡ empty) ⊎ (mem next xs ≡ true)
    → (if x == next then p else q) ≡ q
other_than_next x next p q xs real out (inl h) = ground arith
other_than_next x next p q xs real out (inr h) = ground arith

module _ {T : Type 0} (entries : Entries T) (mask slot : ℕ) where
  pub mem-empty : (prev : ℕ) (ks : List ℕ) → Linked entries mask slot prev ks → mem empty ks ≡ false
  mem-empty prev [] h = refl
  mem-empty prev (x ∷ xs) h = ground (arith, h.0.real, mem-empty x xs h.1)

  -- Each entry of the list is there.
  pub Linked-Cell :
      (prev k : ℕ) (ks : List ℕ)
      → Linked entries mask slot prev ks
      → mem k ks ≡ true
      → (p : ℕ) × (n : ℕ) × Cell entries mask slot k p n
  Linked-Cell prev k [] h m = cc
  Linked-Cell prev k (x ∷ xs) h m = elim (Bool-cases (k == x)) [
    | inl same ↦ let e : k ≡ x = ground arith in rw e (prev, first xs, h.0)
    | inr other ↦ Linked-Cell x k xs h.1 (ground arith)
  ]

  -- What a cell says of the entry that is found there.
  pub Cell-links :
      (k p n : ℕ) (e : Entry T)
      → Cell entries mask slot k p n
      → entries k ≡ some e
      → (e.links.prev ≡ p) × (e.links.next ≡ n) × (bit_and mask e.links.tick ≡ slot)
  Cell-links k p n e c live =
      let same : c.entry ≡ e = cc (c.live) in rw (← same) (c.before, c.after, c.placed)

  pub first-mem : (ks : List ℕ) → (first ks ≡ empty) ⊎ (mem (first ks) ks ≡ true)
  first-mem [] = inl refl
  first-mem (x ∷ xs) = inr (ground arith)

  later-mem :
      (j x : ℕ) (xs : List ℕ)
      → (j ≡ empty) ⊎ (mem j xs ≡ true)
      → (j ≡ empty) ⊎ (mem j (x ∷ xs) ≡ true)
  later-mem j x xs h = ground arith

  pub next-mem :
      (prev k : ℕ) (e : Entry T) (ks : List ℕ)
      → mem k ks ≡ true
      → entries k ≡ some e
      → Linked entries mask slot prev ks
      → (e.links.next ≡ empty) ⊎ (mem e.links.next ks ≡ true)
  next-mem prev k e [] m live h = cc
  next-mem prev k e (x ∷ xs) m live h = later-mem e.links.next x xs (elim (Bool-cases (k == x)) [
    | inl same ↦
        let at : k ≡ x = ground arith in
        let c = Cell-links x prev (first xs) e h.0 (rw (← at) live) in rw c.1 (first-mem xs)
    | inr other ↦ next-mem x k e xs (ground arith) live h.1
  ])

  -- What the entry before the erased one leads to.
  next-erase :
      (x k : ℕ) (l : EntryLinks) (xs : List ℕ)
      → mem x xs ≡ false
      → ((l.prev ≡ x) × (first xs ≡ k) × (xs ≡ k ∷ erase k xs) × (l.next ≡ first (erase k xs)))
        ⊎ ((mem l.prev xs ≡ true) × (first (erase k xs) ≡ first xs))
      → (if x == l.prev then l.next else first xs) ≡ first (erase k xs)
  next-erase x k l xs out (inl h) = ground arith
  next-erase x k l xs out (inr h) = ground arith

  before_mem :
      (j x k : ℕ) (ys : List ℕ)
      → (first ys == k) ≡ false
      → ((j ≡ x) × (first ys ≡ k)) ⊎ (mem j ys ≡ true)
      → mem j ys ≡ true
  before_mem j x k ys other (inl h) = ground arith
  before_mem j x k ys other (inr h) = h

  -- Either the erased entry is the first of the list, or its neighbour before it is in the list.
  pub erase-cases :
      (x k : ℕ) (e : Entry T) (xs : List ℕ)
      → mem k xs ≡ true
      → Distinct xs
      → entries k ≡ some e
      → Linked entries mask slot x xs
      → ((e.links.prev ≡ x)
          × (first xs ≡ k)
          × (xs ≡ k ∷ erase k xs)
          × (e.links.next ≡ first (erase k xs)))
        ⊎ ((mem e.links.prev xs ≡ true) × (first (erase k xs) ≡ first xs))
  erase-cases x k e [] m d live h = cc
  erase-cases x k e (y ∷ ys) m d live h = elim (Bool-cases (y == k)) [
    | inl same ↦
        let at : y ≡ k = ground arith in
        let c = Cell-links y x (first ys) e h.0 (rw at live) in
        inl (rw same (c.0, at, ap (λ (j : ℕ). j ∷ ys) at, c.1))
    | inr other ↦ inr (
      before_mem e.links.prev x k (y ∷ ys) other
          (neighbours entries mask slot x k e (y ∷ ys) m d live h),
      rw other refl,
    )
  ]

  Linked-erase_step :
      (prev k x : ℕ) (e : Entry T) (xs : List ℕ)
      → (x == k) ≡ false
      → mem k xs ≡ true
      → Distinct (x ∷ xs)
      → mem prev (x ∷ xs) ≡ false
      → entries k ≡ some e
      → Linked entries mask slot prev (x ∷ xs)
      → Cell (unlinked entries k e.links) mask slot x prev (first (erase k xs))
  Linked-erase_step prev k x e xs other m d out live h =
      Cell-unlinked entries mask slot x prev (first xs) k e.links prev (first (erase k xs)) h.0
        (ground arith)
        (other_than_next x e.links.next e.links.prev prev xs h.0.real d.0
          (next-mem x k e xs m live h.1))
        (next-erase x k e.links xs d.0 (erase-cases x k e xs m d.1 live h.1))

  pub Linked-erase :
      (prev k : ℕ) (e : Entry T) (ks : List ℕ)
      → mem k ks ≡ true
      → Distinct ks
      → mem prev ks ≡ false
      → entries k ≡ some e
      → Linked entries mask slot prev ks
      → Linked (unlinked entries k e.links) mask slot prev (erase k ks)
  Linked-erase prev k e [] m d out live h = tt
  Linked-erase prev k e (x ∷ xs) m d out live h = elim (Bool-cases (x == k)) [
    | inl same ↦
        let at : x ≡ k = ground arith in
        let c = Cell-links x prev (first xs) e h.0 (rw at live) in
        rw same (
          Linked-unlinked_front entries mask slot prev k e.links xs (rw (← at) d.0) d.1
            (ground arith) c.0 c.1 (rw (← at) h.1))
    | inr other ↦
        let m' : mem k xs ≡ true = ground arith in
        rw other (
          Linked-erase_step prev k x e xs other m' d out live h,
          Linked-erase x k e xs m' d.1 d.0 live h.1,
        )
  ]

  -- No entry is its own neighbour.
  pub prev-ne :
      (prev k : ℕ) (e : Entry T) (ks : List ℕ)
      → mem k ks ≡ true
      → Distinct ks
      → mem prev ks ≡ false
      → entries k ≡ some e
      → Linked entries mask slot prev ks
      → k ≢ e.links.prev
  prev-ne prev k e [] m d out live h = cc
  prev-ne prev k e (x ∷ xs) m d out live h = elim (Bool-cases (k == x)) [
    | inl same ↦
        let at : k ≡ x = ground arith in
        let c = Cell-links x prev (first xs) e h.0 (rw (← at) live) in ground (arith, c.0)
    | inr other ↦ prev-ne x k e xs (ground arith) d.1 d.0 live h.1
  ]

  apart_first :
      (k next : ℕ) (xs : List ℕ) → k ≢ empty → mem k xs ≡ false → next ≡ first xs → k ≢ next
  apart_first k next [] real out h = ground arith
  apart_first k next (x ∷ xs) real out h = ground arith

  pub next-ne :
      (prev k : ℕ) (e : Entry T) (ks : List ℕ)
      → mem k ks ≡ true
      → Distinct ks
      → entries k ≡ some e
      → Linked entries mask slot prev ks
      → k ≢ e.links.next
  next-ne prev k e [] m d live h = cc
  next-ne prev k e (x ∷ xs) m d live h = elim (Bool-cases (k == x)) [
    | inl same ↦
        let at : k ≡ x = ground arith in
        let c = Cell-links x prev (first xs) e h.0 (rw (← at) live) in
        apart_first k e.links.next xs (rw at h.0.real) (rw at d.0) c.1
    | inr other ↦ next-ne x k e xs (ground arith) d.1 live h.1
  ]
