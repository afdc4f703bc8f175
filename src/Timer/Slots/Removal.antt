-- ===== src/Timer/Slots/Removal.antt =====
-- Taking an entry out keeps the wheel in order, src/timer.rs.
use sickle.Base.{
  ℕ, ◌≡◌, ◌≢◌, sym, ◌∙◌, ◌⊎◌, inl, inr, true, false, some, List, ◌==◌, arith, Bool-cases,
  Option-cases, fun_ext, if◌then◌else◌,
}
use sickle.Bits.{bit_and}
use sickle.Timer.Defs.{empty, Entry, Timer}
use sickle.Timer.Ops.{slot_for}
use sickle.Timer.Slots.Links.{mem, Distinct, first, erase, Linked, unlinked, Linked-unlinked_apart}
use sickle.Timer.Slots.Erase.{Distinct-erase, mem-erase_other, erase-cases, Linked-erase}
use sickle.Timer.Slots.Unlink.{Removed}
use sickle.Timer.Slots.Wheel.{
  IsWheel, outside, entry_at, one_slot, prev-cases, next-cases, next-other,
}

abbrev pub slots_without : (ℕ → List ℕ) → (slot k : ℕ) → ℕ → List ℕ
slots_without slots slot k s = if s == slot then erase k (slots s) else slots s

module _ {T : Type 0} where
  module _ (t t' : Timer T) (slots : ℕ → List ℕ) (k : ℕ) (e : Entry T) (v : IsWheel t slots)
      (live : t.entries k ≡ some e) (r : Removed t k e.links t') where
    abbrev slot : ℕ
    slot = bit_and t.mask e.links.tick

    -- A neighbour of the entry is in no other slot.
    not_in :
        (s j : ℕ) → s ≢ slot → (j ≡ empty) ⊎ (mem j (slots slot) ≡ true) → mem j (slots s) ≡ false
    not_in s j ne (inl h) = rw h (outside t slots v s)
    not_in s j ne (inr m) = elim (Bool-cases (mem j (slots s))) [
      | inl m' ↦ absurd (ne (one_slot t slots v s slot j m' m))
      | inr out ↦ out
    ]

    removed-Linked : (s : ℕ) → Linked t'.entries t'.mask s empty (slots_without slots slot k s)
    unfolding slot
    removed-Linked s =
        let same : t'.entries ≡ unlinked t.entries k e.links = fun_ext r.entries in
        rw (same, r.mask)
          (elim (Bool-cases (s == slot)) [
            | inl at ↦
                let at' : s ≡ slot = ground arith in
                rw at (
                  rw at' (
                    Linked-erase t.entries t.mask slot empty k e (slots slot) (v.listed k e live)
                      (v.distinct slot) (outside t slots v slot) live (v.linked slot)))
            | inr other ↦ rw other (
                Linked-unlinked_apart t.entries t.mask s empty k e.links (slots s)
                  (not_in s k (ground arith) (inr (v.listed k e live)))
                  (not_in s e.links.prev (ground arith) (prev-cases t slots v k e live))
                  (not_in s e.links.next (ground arith) (next-cases t slots v k e live))
                  (v.linked s))
          ])

    removed-heads : (s : ℕ) → (t'.wheel s).head ≡ first (slots_without slots slot k s)
    unfolding slot slot_for
    removed-heads s =
        let before = v.heads s in
        let after = r.heads s in
        elim (erase-cases t.entries t.mask slot empty k e (slots slot) (v.listed k e live)
          (v.distinct slot) live (v.linked slot)) [
            | inl (p, _, _, n) ↦ ground (arith, before, after)
            | inr (m, f) ↦ ground (arith, before, after, outside t slots v slot)
          ]

    removed-Distinct : (s : ℕ) → Distinct (slots_without slots slot k s)
    removed-Distinct s = elim (Bool-cases (s == slot)) [
      | inl at ↦ rw at (Distinct-erase k (slots s) (v.distinct s))
      | inr other ↦ rw other (v.distinct s)
    ]

    -- What is still in the slab was there with the same tick.
    was_there :
        (j : ℕ) (e' : Entry T)
        → t'.entries j ≡ some e'
        → (e0 : Entry T) × (t.entries j ≡ some e0) × (e0.links.tick ≡ e'.links.tick) × (j ≢ k)
    unfolding unlinked
    was_there j e' live' = elim (Option-cases (t.entries j)) [
      | inl gone ↦ absurd (ground (arith, r.entries j))
      | inr (e0, was) ↦ (e0, was, ground (arith, r.entries j), ground (arith, r.entries j))
    ]

    still_in :
        (s j : ℕ) → j ≢ k → mem j (slots s) ≡ true → mem j (slots_without slots slot k s) ≡ true
    still_in s j ne m = elim (Bool-cases (s == slot)) [
      | inl at ↦ rw at (mem-erase_other j k (slots s) ne m)
      | inr other ↦ rw other m
    ]

    removed-listed :
        (j : ℕ) (e' : Entry T)
        → t'.entries j ≡ some e'
        → mem j (slots_without slots slot k (bit_and t'.mask e'.links.tick)) ≡ true
    removed-listed j e' live' =
        let (e0, was, same, ne) = was_there j e' live' in
        rw (r.mask, ← same) (still_in (bit_and t.mask e0.links.tick) j ne (v.listed j e0 was))

    -- The entry after the one at `k` is still in the slot.
    next_in : (e.links.next ≡ empty) ⊎ (mem e.links.next (slots_without slots slot k slot) ≡ true)
    unfolding slot
    next_in = elim (next-cases t slots v k e live) [
      | inl h ↦ inl h
      | inr m ↦ inr (still_in slot e.links.next (λ h. next-other t slots v k e live (sym h)) m)
    ]

    -- The entry that the timer stands at is taken out.
    was_current :
        k ≡ t.next
        → (e.links.next ≡ empty)
          ⊎ (mem e.links.next (slots_without slots slot k (bit_and t.mask t.tick)) ≡ true)
    unfolding slot
    was_current at = elim v.current [
      | inl h ↦
          absurd
            (let (_, _, _, real) = entry_at t slots v slot k (v.listed k e live) in real (at ∙ h))
      | inr m ↦
          rw (← one_slot t slots v slot (bit_and t.mask t.tick) k (v.listed k e live) (rw at m))
            next_in
    ]

    removed-current :
        (t'.next ≡ empty)
        ⊎ (mem t'.next (slots_without slots slot k (bit_and t'.mask t'.tick)) ≡ true)
    removed-current = elim (Bool-cases (k == t.next)) [
      | inl at ↦ rw (r.next, r.mask, r.tick, at) (was_current (ground arith))
      | inr other ↦
          rw (r.next, r.mask, r.tick, other)
            (elim v.current [
              | inl h ↦ inl h
              | inr m ↦ inr (still_in (bit_and t.mask t.tick) t.next (ground arith) m)
            ])
    ]

    -- Taking the entry out keeps the wheel in order.
    pub Removed-IsWheel : IsWheel t' (slots_without slots slot k)
    unfolding slot unlinked
    Removed-IsWheel = record {
      heads = removed-heads;
      linked = removed-Linked;
      distinct = removed-Distinct;
      listed = removed-listed;
      none_empty = ground (arith, r.entries empty, v.none_empty);
      current = removed-current;
    }
