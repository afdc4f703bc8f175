-- ===== src/Timer/Slots/Owed.antt =====
-- A timeout that is still to come stays so when other entries come and go, src/timer.rs.
use sickle.Base.{
  ℕ, ◌≤◌, ◌≡◌, ◌≢◌, sym, ap, subst, ◌∙◌, inl, inr, true, false, none, some, List, [], ◌∷◌, ◌==◌,
  arith, Bool-cases, if◌then◌else◌,
}
use sickle.Bits.{bit_and}
use sickle.Timer.Defs.{empty, Entry, Timer}
use sickle.Timer.Slots.Links.{mem, erase, relinked, unlinked}
use sickle.Timer.Slots.Unlink.{Removed}
use sickle.Timer.Slots.Wheel.{IsWheel, entry_at, one_slot, next-other}
use sickle.Timer.Slots.Removal.{slots_without}
use sickle.Timer.Slots.Joined.{slots_with, joined, Inserted}
use sickle.Timer.Slots.Ahead.{ahead, size, ahead-le, ahead-injective, ahead-next}
use sickle.Timer.Slots.Turns.{left}
use sickle.Timer.Slots.Fires.{Waits}

later_mono :
    (j n x : ℕ) (xs ys : List ℕ)
    → ahead n xs ≤ size xs
    → ahead j ys ≤ size ys
    → ahead j (x ∷ xs) ≤ ahead n (x ∷ xs)
    → (ahead j xs ≤ ahead n xs → ahead j ys ≤ ahead n ys)
    → ahead j (x ∷ ys) ≤ ahead n (x ∷ ys)
later_mono j n x xs ys le le' h keep = elim (Bool-cases (j == x)) [
  | inl c ↦ elim (Bool-cases (n == x)) [
    | inl d ↦ rw (c, d) (omega arith)
    | inr d ↦ absurd (omega (arith, rw (c, d) at h))
  ]
  | inr c ↦ elim (Bool-cases (n == x)) [
    | inl d ↦ rw (c, d) (omega arith)
    | inr d ↦ rw (c, d) (keep (rw (c, d) at h))
  ]
]

-- Erasing another key keeps which of two keys comes first.
ahead-erase_mono :
    (j n key : ℕ) (ks : List ℕ)
    → j ≢ key
    → n ≢ key
    → ahead j ks ≤ ahead n ks
    → ahead j (erase key ks) ≤ ahead n (erase key ks)
ahead-erase_mono j n key [] a b h = h
ahead-erase_mono j n key (x ∷ xs) a b h =
    let le = ahead-le n xs in
    let le' = ahead-le j (erase key xs) in
    elim (Bool-cases (x == key)) [
      | inl at ↦
          let c : (j == x) ≡ false = ground arith in
          let d : (n == x) ≡ false = ground arith in rw at (rw (c, d) at h)
      | inr other ↦
          rw other (later_mono j n x xs (erase key xs) le le' h (ahead-erase_mono j n key xs a b))
    ]

module _ {T : Type 0} (slots : ℕ → List ℕ) (k : ℕ) (e : Entry T) (t t' : Timer T)
    (w : Waits slots k e t) where
  abbrev slot : ℕ
  slot = bit_and t.mask e.links.tick

  module _ (key : ℕ) (gone : Entry T) (live : t.entries key ≡ some gone) (other : k ≢ key)
      (r : Removed t key gone.links t') where
    abbrev from : ℕ
    from = bit_and t.mask gone.links.tick

    here : mem key (slots from) ≡ true
    here = w.ordered.listed key gone live

    after_erase :
        slot ≡ from
        → ahead k (slots slot) ≤ ahead t.next (slots slot)
        → ahead k (erase key (slots slot)) ≤ ahead t'.next (erase key (slots slot))
    after_erase same le = elim (Bool-cases (key == t.next)) [
      | inl stood ↦
          let at : key ≡ t.next = ground arith in
          let next : t'.next ≡ gone.links.next = ground (arith, r.next) in
          let one =
            ahead-next t.entries t.mask from empty key gone (slots from) here
              (w.ordered.distinct from) live (w.ordered.linked from) in
          let apart : ahead k (slots from) ≢ ahead key (slots from) = λ h. other (
            ahead-injective k key (slots from)
              (subst (λ s. mem k (slots s) ≡ true) same (w.ordered.listed k e w.live)) here h) in
          let le' : ahead k (slots from) ≤ ahead key (slots from) =
            subst (λ s. ahead k (slots s) ≤ ahead key (slots s)) same (rw at le) in
          rw (next, same)
            (ahead-erase_mono k gone.links.next key (slots from) other
              (λ h. next-other t slots w.ordered key gone live (sym h)) (omega arith))
      | inr elsewhere ↦
          let next : t'.next ≡ t.next = ground (arith, r.next) in
          rw next (ahead-erase_mono k t.next key (slots slot) other (ground arith) le)
    ]

    after_other :
        (slot == from) ≡ false
        → t.tick ≡ e.links.tick
        → ahead k (slots slot) ≤ ahead t.next (slots slot)
        → ahead k (slots slot) ≤ ahead t'.next (slots slot)
    after_other apart at le = elim (Bool-cases (key == t.next)) [
      | inr elsewhere ↦ let next : t'.next ≡ t.next = ground (arith, r.next) in rw next le
      | inl stood ↦
          let same : key ≡ t.next = ground arith in
          elim w.ordered.current [
            | inl h ↦ ground (arith, w.ordered.none_empty)
            | inr m ↦
                let two =
                  one_slot t slots w.ordered slot from key
                    (rw same (subst (λ n. mem t.next (slots (bit_and t.mask n)) ≡ true) at m))
                    here in
                absurd (ground arith)
          ]
    ]

    -- Where the timer stands after the entry at `key` is taken out, the entry is still ahead.
    still_ahead :
        t.tick ≡ e.links.tick
        → ahead k (slots slot) ≤ left t slots
        → ahead k (slots_without slots from key slot) ≤ left t' (slots_without slots from key)
    still_ahead at le =
        let there : bit_and t'.mask t'.tick ≡ slot =
          ap (λ m. bit_and m t'.tick) r.mask ∙ ap (bit_and t.mask) (r.tick ∙ at) in
        let le0 : ahead k (slots slot) ≤ ahead t.next (slots slot) =
          subst (λ n. ahead k (slots slot) ≤ ahead t.next (slots (bit_and t.mask n))) at le in
        subst
          (λ s.
            ahead k (slots_without slots from key slot)
            ≤ ahead t'.next (slots_without slots from key s))
          (sym there)
          (elim (Bool-cases (slot == from)) [
            | inl same ↦ rw same (after_erase (ground arith) le0)
            | inr apart ↦ rw apart (after_other apart at le0)
          ])

  -- Another entry is taken out.
  pub Waits-Removed :
      (key : ℕ) (gone : Entry T)
      → t.entries key ≡ some gone
      → k ≢ key
      → Removed t key gone.links t'
      → IsWheel t' (slots_without slots (bit_and t.mask gone.links.tick) key)
      → Waits
          (slots_without slots (bit_and t.mask gone.links.tick) key)
          k
          (relinked gone.links k e)
          t'
  unfolding unlinked
  Waits-Removed key gone live other r v = record {
    ordered = v;
    live = ground (arith, r.entries k, w.live);
    to_come = elim w.to_come [
      | inl before ↦ inl (rw r.tick before)
      | inr (at, le) ↦ inr (
        r.tick ∙ at,
        subst
            (λ m.
              ahead k
                (slots_without slots (bit_and t.mask gone.links.tick) key (bit_and m e.links.tick))
              ≤ left t' (slots_without slots (bit_and t.mask gone.links.tick) key))
            (sym r.mask) (still_ahead key gone live other r at le),
      )
    ];
  }

  -- Another entry comes in, at the front of its slot.
  module _ (key at : ℕ) (new : Entry T) (free : t.entries key ≡ none) (real : key ≢ empty)
      (r : Inserted t key at new t') where
    ahead-slots_with : (j s : ℕ) → j ≢ key → ahead j (slots_with slots at key s) ≡ ahead j (slots s)
    ahead-slots_with j s ne = ground arith

    next_other : t.next ≢ key
    next_other h = elim w.ordered.current [
      | inl between ↦ real (sym h ∙ between)
      | inr m ↦
          let (x, live, _, _) = entry_at t slots w.ordered (bit_and t.mask t.tick) t.next m in
          let live' : t.entries key ≡ some x = subst (λ j. t.entries j ≡ some x) h live in
          ground (arith, live', free)
    ]

    ahead_inserted :
        (e' : Entry T)
        → k ≢ key
        → e'.links.tick ≡ e.links.tick
        → ahead k (slots slot) ≤ left t slots
        → ahead k (slots_with slots at key (bit_and t'.mask e'.links.tick))
          ≤ left t' (slots_with slots at key)
    ahead_inserted e' other tick le =
        let was = ahead-slots_with k (bit_and t'.mask e'.links.tick) other in
        let stands = ahead-slots_with t.next (bit_and t'.mask t'.tick) next_other in
        rw (was, r.next, stands, r.mask, r.tick, tick) le

    pub Waits-Inserted :
        IsWheel t' (slots_with slots at key)
        → (e' : Entry T) × Waits (slots_with slots at key) k e' t'
          × (e'.state ≡ e.state)
          × (e'.links.tick ≡ e.links.tick)
    unfolding joined
    Waits-Inserted v =
        let other : k ≢ key = λ h. ground (arith, w.live, free, ap t.entries h) in
        let e' : Entry T =
          if k == (t.wheel at).head
          then record e { links = record e.links { prev = key } }
          else e in
        let tick : e'.links.tick ≡ e.links.tick = ground arith in
        (
          e',
          record {
            ordered = v;
            live = ground (arith, r.entries k, w.live, other);
            to_come = elim w.to_come [
              | inl before ↦ inl (rw (r.tick, tick) before)
              | inr (on, le) ↦ inr (r.tick ∙ on ∙ sym tick, ahead_inserted e' other tick le)
            ];
          },
          ground arith,
          tick,
        )
