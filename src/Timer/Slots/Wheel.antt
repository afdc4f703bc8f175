-- ===== src/Timer/Slots/Wheel.antt =====
-- When the slab and the wheel of a timer are in order, src/timer.rs.
use sickle.Base.{ℕ, ◌≡◌, ◌≢◌, sym, ◌∙◌, ◌⊎◌, inl, inr, true, false, none, some, List}
use sickle.Bits.{bit_and}
use sickle.Timer.Defs.{empty, Entry, Timer}
use sickle.Timer.Slots.Links.{mem, Distinct, first, Linked, neighbours}
use sickle.Timer.Slots.Erase.{mem-empty, Linked-Cell, next-mem, prev-ne, next-ne}
use sickle.Timer.Slots.Unlink.{Neighbour}

module _ {T : Type 0} where
  -- `slots` lists the keys of each slot: the head is the first of them, they are linked in both
  -- directions, each has the tick of its slot, and every entry of the slab is among them. The timer
  -- stands between two slots, or at an entry of the slot of its tick.
  pub record IsWheel (t : Timer T) (slots : ℕ → List ℕ) : Type 0 where
    pub heads : (s : ℕ) → (t.wheel s).head ≡ first (slots s)
    pub linked : (s : ℕ) → Linked t.entries t.mask s empty (slots s)
    pub distinct : (s : ℕ) → Distinct (slots s)
    pub listed :
        (k : ℕ) (e : Entry T)
        → t.entries k ≡ some e
        → mem k (slots (bit_and t.mask e.links.tick)) ≡ true
    pub none_empty : t.entries empty ≡ none
    pub current : (t.next ≡ empty) ⊎ (mem t.next (slots (bit_and t.mask t.tick)) ≡ true)

  -- Some lists of keys are those of the slots.
  abbrev pub IsOrdered : Timer T → Type 0
  IsOrdered t = (slots : ℕ → List ℕ) × IsWheel t slots

  module _ (t : Timer T) (slots : ℕ → List ℕ) (v : IsWheel t slots) where
    pub outside : (s : ℕ) → mem empty (slots s) ≡ false
    outside s = mem-empty t.entries t.mask s empty (slots s) (v.linked s)

    -- A key of a slot is the key of an entry for that slot.
    pub entry_at :
        (s k : ℕ)
        → mem k (slots s) ≡ true
        → (e : Entry T) × (t.entries k ≡ some e) × (bit_and t.mask e.links.tick ≡ s) × (k ≢ empty)
    entry_at s k m =
        let (p, n, c) = Linked-Cell t.entries t.mask s empty k (slots s) (v.linked s) m in
        (c.entry, c.live, c.placed, c.real)

    -- No key is in two slots.
    pub one_slot :
        (s s' k : ℕ) → mem k (slots s) ≡ true → mem k (slots s') ≡ true → ◌≡◌ {A = ℕ} s s'
    one_slot s s' k m m' =
        let (e, live, at, _) = entry_at s k m in
        let (e', live', at', _) = entry_at s' k m' in
        let same : e ≡ e' = cc in sym at ∙ (rw same at')

    module _ (k : ℕ) (e : Entry T) (live : t.entries k ≡ some e) where
      here : mem k (slots (bit_and t.mask e.links.tick)) ≡ true
      here = v.listed k e live

      -- The entry before it is there, or there is none.
      pub prev-cases :
          (e.links.prev ≡ empty) ⊎ (mem e.links.prev (slots (bit_and t.mask e.links.tick)) ≡ true)
      prev-cases =
          let s = bit_and t.mask e.links.tick in
          elim (neighbours t.entries t.mask s empty k e (slots s) here (v.distinct s) live
            (v.linked s)) [ inl (h, _) ↦ inl h | inr h ↦ inr h ]

      pub next-cases :
          (e.links.next ≡ empty) ⊎ (mem e.links.next (slots (bit_and t.mask e.links.tick)) ≡ true)
      next-cases =
          let s = bit_and t.mask e.links.tick in
          next-mem t.entries t.mask s empty k e (slots s) here live (v.linked s)

      pub prev-other : k ≢ e.links.prev
      prev-other =
          let s = bit_and t.mask e.links.tick in
          prev-ne t.entries t.mask s empty k e (slots s) here (v.distinct s) (outside s) live
            (v.linked s)

      pub next-other : k ≢ e.links.next
      next-other =
          let s = bit_and t.mask e.links.tick in
          next-ne t.entries t.mask s empty k e (slots s) here (v.distinct s) live (v.linked s)

    pub neighbour : (s k : ℕ) → (k ≡ empty) ⊎ (mem k (slots s) ≡ true) → Neighbour t k
    neighbour s k (inl h) = inl h
    neighbour s k (inr m) = let (e, live, _, real) = entry_at s k m in inr (e, live, real)
