-- ===== src/Timer/Slots/Insert.antt =====
-- `insert` on a wheel in order, src/timer.rs.
use sickle.Base.{
  ap, ℕ, ◌≡◌, ◌≢◌, refl, subst, sym, ◌∙◌, ◌⊎◌, inl, inr, true, false, none, some, List, ◌∷◌, ◌==◌,
  arith, Bool-cases, Option-cases, if◌then◌else◌, ok, update, min, fun_ext,
}
use sickle.Bits.{bit_and}
use sickle.Timer.Defs.{Tick, empty, Entry, new_entry, Timer}
use sickle.Timer.Ops.{slot_for, set_links, schedule_readiness, insert}
use sickle.Timer.Slots.Links.{mem, first, Entries, Cell, Linked}
use sickle.Timer.Slots.Erase.{first-mem}
use sickle.Timer.Slots.Cancel.{timeouts}
use sickle.Timer.Slots.Wheel.{IsWheel, IsOrdered, outside, entry_at, one_slot}
use sickle.Timer.Slots.Joined.{slots_with, joined, Linked-joined_apart, Linked-joined, Inserted}

module _ {T : Type 0} where
  module _ (t : Timer T) (key : ℕ) (tick : Tick) (state : T) where
    abbrev slot : ℕ
    slot = bit_and t.mask tick

    abbrev fresh : Entry T
    fresh = new_entry state tick (t.wheel slot).head

    -- The wheel after the choice of the head, before the wakeup thread is told.
    abbrev unscheduled : Timer T
    unscheduled = record t {
      entries = joined t.entries key (t.wheel slot).head fresh;
      wheel =
          update t.wheel slot
            (record { next_tick = min tick (t.wheel slot).next_tick; head = key });
    }

    schedule_readiness-Inserted : Inserted t key slot fresh (schedule_readiness unscheduled tick)
    unfolding schedule_readiness
    schedule_readiness-Inserted = elim (Option-cases t.inner) [
      | inl off ↦ record {
        entries = λ j. ground arith;
        heads = λ s. ground arith;
        next = ground arith;
        tick = ground arith;
        mask = ground arith;
      }
      | inr (i, on) ↦ record {
        entries = λ j. ground arith;
        heads = λ s. ground arith;
        next = ground arith;
        tick = ground arith;
        mask = ground arith;
      }
    ]

    abbrev with_entries : Entries T → Timer T
    with_entries entries = record unscheduled { entries = entries }

    abbrev Inserts : Entries T → Type 0
    Inserts entries =
        insert t key tick state
        ≡ ok (record { token = key; tick = tick }, schedule_readiness (with_entries entries) tick)

    insert_alone : (t.wheel slot).head ≡ empty → Inserts (update t.entries key (some fresh))
    unfolding insert slot_for
    insert_alone h = ground arith

    insert_before :
        (x : Entry T)
        → (t.wheel slot).head ≢ empty
        → (t.wheel slot).head ≢ key
        → t.entries (t.wheel slot).head ≡ some x
        → Inserts (
            update
              (update t.entries key (some fresh))
              (t.wheel slot).head
              (some (record x { links = record x.links { prev = key } })))
    unfolding insert slot_for set_links
    insert_before x real other live = ground arith

    insert-Inserts :
        (slots : ℕ → List ℕ)
        → IsWheel t slots
        → t.entries key ≡ none
        → Inserts (joined t.entries key (t.wheel slot).head fresh)
    unfolding joined
    insert-Inserts slots v free = elim (first-mem t.entries t.mask slot (slots slot)) [
      | inl h ↦
          let clear : (t.wheel slot).head ≡ empty = v.heads slot ∙ h in
          subst Inserts (fun_ext (λ j. ground (arith, v.none_empty))) (insert_alone clear)
      | inr m ↦
          let (x, live, _, real) = entry_at t slots v slot (first (slots slot)) m in
          let at = v.heads slot in
          let live' : t.entries (t.wheel slot).head ≡ some x = rw at live in
          subst Inserts (fun_ext (λ j. ground (arith, live')))
            (insert_before x (rw at real) (ground (arith, live')) live')
    ]

    module _ (slots : ℕ → List ℕ) (v : IsWheel t slots) (free : t.entries key ≡ none)
        (real : key ≢ empty) (t' : Timer T) (r : Inserted t key slot fresh t') where
      -- The key is in no slot yet.
      key_out : (s : ℕ) → mem key (slots s) ≡ false
      key_out s = elim (Bool-cases (mem key (slots s))) [
        | inl m ↦ let (e, live, _, _) = entry_at t slots v s key m in cc
        | inr out ↦ out
      ]

      head_out : (s : ℕ) → s ≢ slot → mem (t.wheel slot).head (slots s) ≡ false
      head_out s ne = rw (v.heads slot) (elim (first-mem t.entries t.mask slot (slots slot)) [
        | inl h ↦ rw h (outside t slots v s)
        | inr m ↦ elim (Bool-cases (mem (first (slots slot)) (slots s))) [
          | inl m' ↦ absurd (ne (one_slot t slots v s slot (first (slots slot)) m' m))
          | inr out ↦ out
        ]
      ])

      new_first : Cell t'.entries t'.mask slot key empty (first (slots slot))
      unfolding joined
      new_first = record {
        entry = fresh;
        live = ground (arith, r.entries key);
        before = refl;
        after = v.heads slot;
        placed = ap (λ m. bit_and m tick) r.mask;
        real = real;
      }

      moved :
          (s prev : ℕ) (ks : List ℕ)
          → Linked (joined t.entries key (t.wheel slot).head fresh) t.mask s prev ks
          → Linked t'.entries t'.mask s prev ks
      moved s prev ks h =
          subst (λ es. Linked es t'.mask s prev ks) (sym (fun_ext r.entries))
            (subst (λ m. Linked (joined t.entries key (t.wheel slot).head fresh) m s prev ks)
              (sym r.mask) h)

      old_ones : Linked t'.entries t'.mask slot key (slots slot)
      old_ones = moved slot key (slots slot) (
          subst (λ h. Linked (joined t.entries key h fresh) t.mask slot key (slots slot))
            (sym (v.heads slot))
            (Linked-joined t.entries t.mask slot empty key fresh (slots slot) (key_out slot)
              (v.distinct slot) (v.linked slot)))

      inserted-Linked : (s : ℕ) → Linked t'.entries t'.mask s empty (slots_with slots slot key s)
      inserted-Linked s = elim (Bool-cases (s == slot)) [
        | inl at ↦ rw at (
            subst (λ s'. Linked t'.entries t'.mask s' empty (key ∷ slots s')) (ground arith)
              (new_first, old_ones))
        | inr other ↦ rw other (
            moved s empty (slots s) (
              Linked-joined_apart t.entries t.mask s empty key (t.wheel slot).head fresh (slots s)
                (key_out s) (head_out s (ground arith)) (v.linked s)))
      ]

      still_in : (s j : ℕ) → mem j (slots s) ≡ true → mem j (slots_with slots slot key s) ≡ true
      still_in s j m = ground arith

      -- What is in the slab is the new entry, or was there with the same tick.
      was_there :
          (j : ℕ) (e : Entry T)
          → t'.entries j ≡ some e
          → ((j ≡ key) × (e.links.tick ≡ tick))
            ⊎ ((e0 : Entry T) × (t.entries j ≡ some e0) × (e0.links.tick ≡ e.links.tick))
      unfolding joined
      was_there j e live = elim (Bool-cases (j == key)) [
        | inl at ↦ inl (ground arith, ground (arith, r.entries j))
        | inr other ↦ elim (Option-cases (t.entries j)) [
          | inl gone ↦ absurd (ground (arith, r.entries j))
          | inr (e0, was) ↦ inr (e0, was, ground (arith, r.entries j))
        ]
      ]

      inserted-listed :
          (j : ℕ) (e : Entry T)
          → t'.entries j ≡ some e
          → mem j (slots_with slots slot key (bit_and t'.mask e.links.tick)) ≡ true
      inserted-listed j e live = elim (was_there j e live) [
        | inl (at, same) ↦ rw (r.mask, same) (ground arith)
        | inr (e0, was, same) ↦
            rw (r.mask, ← same) (still_in (bit_and t.mask e0.links.tick) j (v.listed j e0 was))
      ]

      inserted-current :
          (t'.next ≡ empty)
          ⊎ (mem t'.next (slots_with slots slot key (bit_and t'.mask t'.tick)) ≡ true)
      inserted-current = elim v.current [
        | inl h ↦ inl (r.next ∙ h)
        | inr m ↦ inr (rw (r.next, r.mask, r.tick) (still_in (bit_and t.mask t.tick) t.next m))
      ]

      -- With the new entry the wheel is still in order.
      pub Inserted-IsWheel : IsWheel t' (slots_with slots slot key)
      unfolding joined
      Inserted-IsWheel = record {
        heads = λ s. ground (arith, r.heads s, v.heads s);
        linked = inserted-Linked;
        distinct = λ s. ground (arith, key_out s, v.distinct s);
        listed = inserted-listed;
        none_empty = ground (arith, r.entries empty, v.none_empty);
        current = inserted-current;
      }

    -- On an ordered wheel, inserting under a free key never panics, and leaves an ordered wheel.
    pub insert-IsWheel :
        (slots : ℕ → List ℕ)
        → IsWheel t slots
        → t.entries key ≡ none
        → key ≢ empty
        → (t' : Timer T) × (insert t key tick state ≡ ok (record { token = key; tick = tick }, t'))
          × Inserted t key slot fresh t'
          × IsWheel t' (slots_with slots slot key)
    insert-IsWheel slots v free real =
        let t' = schedule_readiness unscheduled tick in
        (
          t',
          insert-Inserts slots v free,
          schedule_readiness-Inserted,
          Inserted-IsWheel slots v free real t' schedule_readiness-Inserted,
        )

    Inserted-timeouts :
        (t' : Timer T) (j : ℕ)
        → Inserted t key slot fresh t'
        → timeouts t' j ≡ (if j == key then some (state, tick) else timeouts t j)
    unfolding joined
    Inserted-timeouts t' j r = elim (Option-cases (t.entries j)) [
      | inl gone ↦ ground (arith, r.entries j)
      | inr (e, live) ↦ ground (arith, r.entries j)
    ]

    -- Setting a timeout on an ordered wheel, under a key that is free and not the mark for no key,
    -- never panics and leaves an ordered wheel: the timeout is there with its state and tick, and
    -- every other one as before.
    pub insert-IsOrdered :
        IsOrdered t
        → t.entries key ≡ none
        → key ≢ empty
        → (t' : Timer T) × (insert t key tick state ≡ ok (record { token = key; tick = tick }, t'))
          × IsOrdered t'
          × ((k : ℕ) → timeouts t' k ≡ (if k == key then some (state, tick) else timeouts t k))
    insert-IsOrdered (slots, v) free real =
        let (t', runs, r, v') = insert-IsWheel slots v free real in
        (t', runs, (slots_with slots slot key, v'), λ k. Inserted-timeouts t' k r)
