-- ===== src/Timer/Slots/Turns.antt =====
-- One turn of the loop of `poll_to` on a wheel in order, src/timer.rs.
use sickle.Base.{
  ℕ, ◌+◌, ◌≡◌, refl, sym, ap, subst, ◌∙◌, ◌⊎◌, inl, inr, Bool, true, false, some, List, ◌==◌, leb,
  min, arith, Bool-cases, if◌then◌else◌, Outcome, ok, ◌>>=◌, unwrap,
}
use sickle.Bits.{bit_and}
use sickle.Timer.Defs.{Tick, empty, tick_max, EntryLinks, Entry, Timer}
use sickle.Timer.Ops.{slot_for, set_next_tick}
use sickle.Timer.Poll.{Turn, go_on, fired, next_slot, visit_entry, visit, turn}
use sickle.Timer.Slots.Links.{mem, first, Linked}
use sickle.Timer.Slots.Erase.{first-mem, next-mem}
use sickle.Timer.Slots.Unlink.{Removed}
use sickle.Timer.Slots.Wheel.{IsWheel, outside, entry_at}
use sickle.Timer.Slots.Cancel.{unlink_and_remove-IsWheel}
use sickle.Timer.Slots.Removal.{slots_without}
use sickle.Timer.Slots.Ahead.{ahead, size, ahead-first, ahead-empty, ahead-next}

module _ {T : Type 0} where
  -- Only the entries, the mask, the heads and where the timer stands count.
  pub moved-IsWheel :
      (t t' : Timer T) (slots : ℕ → List ℕ)
      → IsWheel t slots
      → t'.entries ≡ t.entries
      → t'.mask ≡ t.mask
      → ((s : ℕ) → (t'.wheel s).head ≡ (t.wheel s).head)
      → (t'.next ≡ empty) ⊎ (mem t'.next (slots (bit_and t'.mask t'.tick)) ≡ true)
      → IsWheel t' slots
  moved-IsWheel t t' slots v same mask heads current = record {
    heads = λ s. heads s ∙ v.heads s;
    linked = λ s.
        subst (λ es. Linked es t'.mask s empty (slots s)) (sym same)
          (subst (λ m. Linked t.entries m s empty (slots s)) (sym mask) (v.linked s));
    distinct = v.distinct;
    listed = λ k e live. rw mask (v.listed k e (sym (ap (λ es. es k) same) ∙ live));
    none_empty = ap (λ es. es empty) same ∙ v.none_empty;
    current = current;
  }

  -- What the timer has to come in the slot that it stands at.
  abbrev pub left : Timer T → (ℕ → List ℕ) → ℕ
  left t slots = ahead t.next (slots (bit_and t.mask t.tick))

  -- The timer after a turn that goes on: nothing was left in the slot, and it is at the first entry of
  -- the next one; or it has passed an entry that was not due.
  pub record GoesOn (t : Timer T) (slots : ℕ → List ℕ) (t' : Timer T) : Type 0 where
    pub ordered : IsWheel t' slots
    pub entries : t'.entries ≡ t.entries
    pub mask : t'.mask ≡ t.mask
    pub further :
        ((t'.tick ≡ t.tick + 1)
          × (left t slots ≡ 0)
          × (left t' slots ≡ size (slots (bit_and t.mask (t.tick + 1)))))
        ⊎ ((t'.tick ≡ t.tick)
            × (left t slots ≡ left t' slots + 1)
            × ((e : Entry T) × (t.entries t.next ≡ some e) × (leb e.links.tick t.tick ≡ false)))

  -- The timer after a turn that fires: the entry that it stood at was due and is taken out.
  pub record HasFired (t : Timer T) (slots : ℕ → List ℕ) (s : T) (t' : Timer T) : Type 0 where
    pub entry : Entry T
    pub live : t.entries t.next ≡ some entry
    pub here : mem t.next (slots (bit_and t.mask t.tick)) ≡ true
    pub due : leb entry.links.tick t.tick ≡ true
    pub state : s ≡ entry.state
    pub removed : Removed t t.next entry.links t'
    pub ordered : IsWheel t' (slots_without slots (bit_and t.mask entry.links.tick) t.next)

  abbrev pub TurnsTo : Timer T → (ℕ → List ℕ) → Outcome (Turn T) → Type 0
  TurnsTo t slots r =
      ((s : T) × (t' : Timer T) × (r ≡ ok (fired s t')) × HasFired t slots s t')
      ⊎ ((t' : Timer T) × (r ≡ ok (go_on t')) × GoesOn t slots t')

  module _ (t : Timer T) (slots : ℕ → List ℕ) (v : IsWheel t slots) where
    next_slot-current :
        ((next_slot t).next ≡ empty)
        ⊎ (mem (next_slot t).next (slots (bit_and (next_slot t).mask (next_slot t).tick)) ≡ true)
    unfolding next_slot slot_for
    next_slot-current =
        let slot = bit_and t.mask (t.tick + 1) in
        let mask : (next_slot t).mask ≡ t.mask = ground arith in
        let tick : (next_slot t).tick ≡ t.tick + 1 = ground arith in
        let next : (next_slot t).next ≡ (t.wheel slot).head = ground arith in
        subst
          (λ k.
            (k ≡ empty) ⊎ (mem k (slots (bit_and (next_slot t).mask (next_slot t).tick)) ≡ true))
          (sym (next ∙ v.heads slot))
          (rw (mask, tick) (first-mem t.entries t.mask slot (slots slot)))

    next_slot-left :
        (next_slot t).next ≡ first (slots (bit_and t.mask (t.tick + 1)))
        → left (next_slot t) slots ≡ size (slots (bit_and t.mask (t.tick + 1)))
    unfolding next_slot
    next_slot-left next =
        let slot = bit_and t.mask (t.tick + 1) in
        let mask : (next_slot t).mask ≡ t.mask = ground arith in
        let tick : (next_slot t).tick ≡ t.tick + 1 = ground arith in
        rw (mask, tick)
          (ap (λ k. ahead k (slots slot)) next ∙ ahead-first (slots slot) (outside t slots v slot))

    next_slot-GoesOn : t.next ≡ empty → GoesOn t slots (next_slot t)
    unfolding next_slot slot_for
    next_slot-GoesOn between =
        let slot = bit_and t.mask (t.tick + 1) in
        let next : (next_slot t).next ≡ (t.wheel slot).head = ground arith in
        record {
          ordered =
              moved-IsWheel t (next_slot t) slots v (ground arith) (ground arith)
                (λ s. ground arith) next_slot-current;
          entries = ground arith;
          mask = ground arith;
          further = inl (
            ground arith,
            rw between (
                ahead-empty (slots (bit_and t.mask t.tick))
                  (outside t slots v (bit_and t.mask t.tick))),
            next_slot-left (next ∙ v.heads slot),
          );
        }

    -- Forgetting or lowering the next tick of a slot.
    set_next_tick-IsWheel : (slot : ℕ) (tick : Tick) → IsWheel (set_next_tick t slot tick) slots
    set_next_tick-IsWheel slot tick =
        moved-IsWheel t (set_next_tick t slot tick) slots v refl refl (λ s. ground arith) v.current

  module _ (t : Timer T) (slots : ℕ → List ℕ) (v : IsWheel t slots) where
    module _ (e : Entry T) (live : t.entries t.next ≡ some e)
        (m : mem t.next (slots (bit_and t.mask t.tick)) ≡ true) where
      abbrev slot : ℕ
      slot = bit_and t.mask t.tick

      abbrev passed : Timer T
      passed = record (set_next_tick t slot (min (t.wheel slot).next_tick e.links.tick)) {
        next = e.links.next;
      }

      -- The entry is not due: the timer goes on to the one after it.
      passed-GoesOn : leb e.links.tick t.tick ≡ false → GoesOn t slots passed
      passed-GoesOn later = record {
        entries = refl;
        mask = refl;
        ordered =
            moved-IsWheel t passed slots v refl refl (λ s. ground arith)
              (next-mem t.entries t.mask slot empty t.next e (slots slot) m live (v.linked slot));
        further = inr (
          refl,
          ahead-next t.entries t.mask slot empty t.next e (slots slot) m (v.distinct slot) live
              (v.linked slot),
          (e, live, later),
        );
      }

      visit_entry-TurnsTo : TurnsTo t slots (visit_entry t slot t.next e)
      unfolding visit_entry
      visit_entry-TurnsTo = elim (Bool-cases (leb e.links.tick t.tick)) [
        | inl due ↦
            let (t', runs, r, v') = unlink_and_remove-IsWheel t slots t.next e v live in
            inl (
              e.state,
              t',
              ground (arith, runs),
              record {
                entry = e;
                live = live;
                here = m;
                due = due;
                state = refl;
                removed = r;
                ordered = v';
              },
            )
        | inr later ↦ inr (passed, ground arith, passed-GoesOn later)
      ]

  module _ (t : Timer T) (slots : ℕ → List ℕ) (v : IsWheel t slots) where
    forgotten-Removed :
        (at k : ℕ) (l : EntryLinks) (t' : Timer T)
        → Removed (set_next_tick t at tick_max) k l t'
        → Removed t k l t'
    unfolding slot_for
    forgotten-Removed at k l t' r = record {
      entries = r.entries;
      heads = λ s. ground (arith, r.heads s);
      next = r.next;
      tick = r.tick;
      mask = r.mask;
      inner = r.inner;
    }

    -- Where the next tick of the slot is forgotten first, the turn is the same.
    forgotten :
        (at : ℕ) (r : Outcome (Turn T))
        → TurnsTo (set_next_tick t at tick_max) slots r
        → TurnsTo t slots r
    forgotten at r (inl (s, t', got, f)) = inl (
      s,
      t',
      got,
      record {
        entry = f.entry;
        live = f.live;
        here = f.here;
        due = f.due;
        state = f.state;
        removed = forgotten-Removed at t.next f.entry.links t' f.removed;
        ordered = f.ordered;
      },
    )
    forgotten at r (inr (t', got, g)) = inr (
      t',
      got,
      record { ordered = g.ordered; entries = g.entries; mask = g.mask; further = g.further },
    )

    visit-TurnsTo :
        (e : Entry T)
        → t.entries t.next ≡ some e
        → mem t.next (slots (bit_and t.mask t.tick)) ≡ true
        → (lowered : Bool)
        → TurnsTo t slots (
            let t1 : Timer T =
              if lowered then set_next_tick t (bit_and t.mask t.tick) tick_max else t in
            unwrap (t1.entries t.next) >>= visit_entry t1 (bit_and t.mask t.tick) t.next)
    visit-TurnsTo e live m true =
        let slot = bit_and t.mask t.tick in
        let t1 = set_next_tick t slot tick_max in
        subst (λ o. TurnsTo t slots (unwrap o >>= visit_entry t1 slot t.next)) (sym live)
          (forgotten slot (visit_entry t1 slot t.next e)
            (visit_entry-TurnsTo t1 slots (set_next_tick-IsWheel t slots v slot tick_max) e live m))
    visit-TurnsTo e live m false =
        let slot = bit_and t.mask t.tick in
        subst (λ o. TurnsTo t slots (unwrap o >>= visit_entry t slot t.next)) (sym live)
          (visit_entry-TurnsTo t slots v e live m)

    -- A turn on an ordered wheel fires an entry, or goes on to the next tick or the next entry.
    pub turn-TurnsTo : TurnsTo t slots (turn t)
    unfolding turn visit slot_for
    turn-TurnsTo = elim (Bool-cases (t.next == empty)) [
      | inl between ↦ inr (next_slot t, ground arith, next_slot-GoesOn t slots v (ground arith))
      | inr at ↦ elim v.current [
        | inl h ↦ absurd (ground arith)
        | inr m ↦
            let (e, live, _, _) = entry_at t slots v (bit_and t.mask t.tick) t.next m in
            rw at (visit-TurnsTo e live m (t.next == (t.wheel (bit_and t.mask t.tick)).head))
      ]
    ]
