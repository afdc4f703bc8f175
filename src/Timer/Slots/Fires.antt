-- ===== src/Timer/Slots/Fires.antt =====
-- A timeout that is due fires, src/timer.rs.
use sickle.Base.{
  ℕ, zero, suc, ◌+◌, ◌<◌, ◌≤◌, ◌≡◌, ◌≢◌, sym, ap, subst, ◌∙◌, ◌⊎◌, inl, inr, true, false, Option,
  none, some, List, ◌==◌, leb, ltb, arith, Bool-cases, if◌then◌else◌, Outcome, ok, After,
}
use sickle.Bits.{bit_and}
use sickle.Timer.Defs.{Tick, Entry, Timer}
use sickle.Timer.Poll.{after_turn, poll_loop, poll_to}
use sickle.Timer.Slots.Links.{mem}
use sickle.Timer.Slots.Wheel.{IsWheel, IsOrdered}
use sickle.Timer.Slots.Ahead.{ahead, size, ahead-le, ahead-mem, ahead-injective}
use sickle.Timer.Slots.Turns.{left, GoesOn, turn-TurnsTo}
use sickle.Timer.Slots.Returns.{poll_to-total}

abbrev pub IsFired : {T : Type 0} → Option T × Timer T → Type 0
IsFired (none, t) = ⊥
IsFired (some s, t) = Unit

module _ {T : Type 0} (slots : ℕ → List ℕ) (k : ℕ) (e : Entry T) where
  -- The entry at `k` is still to come: its tick is later, or it is ahead in the slot.
  pub record Waits (t : Timer T) : Type 0 where
    pub ordered : IsWheel t slots
    pub live : t.entries k ≡ some e
    pub to_come :
        (t.tick < e.links.tick)
        ⊎ ((t.tick ≡ e.links.tick) × (ahead k (slots (bit_and t.mask e.links.tick)) ≤ left t slots))

  module _ (t t' : Timer T) (w : Waits t) (g : GoesOn t slots t') where
    abbrev slot : ℕ
    slot = bit_and t.mask e.links.tick

    here : 0 < ahead k (slots slot)
    here = ahead-mem k (slots slot) (w.ordered.listed k e w.live)

    -- The entry is not the one that was passed over, which was not due.
    not_passed :
        (x : Entry T)
        → t.entries t.next ≡ some x
        → leb x.links.tick t.tick ≡ false
        → t.tick ≡ e.links.tick
        → ahead k (slots slot) ≢ left t slots
    not_passed x live later at same =
        let there : left t slots ≡ ahead t.next (slots slot) =
          ap (λ n. ahead t.next (slots (bit_and t.mask n))) at in
        elim w.ordered.current [
          | inl h ↦ ground (arith, w.ordered.none_empty)
          | inr m ↦
              let found =
                ahead-injective k t.next (slots slot) (w.ordered.listed k e w.live)
                  (subst (λ n. mem t.next (slots (bit_and t.mask n)) ≡ true) at m) (same ∙ there) in
              let live' : t.entries t.next ≡ some e =
                subst (λ j. t.entries j ≡ some e) found w.live in
              ground (arith, live, live')
        ]

    still_to_come :
        (t'.tick < e.links.tick)
        ⊎ ((t'.tick ≡ e.links.tick) × (ahead k (slots slot) ≤ left t' slots))
    still_to_come = elim (g.further) [
      | inl (next, none_left, all) ↦ elim w.to_come [
        | inr (at, le) ↦ absurd (omega (arith, here))
        | inl before ↦ elim (Bool-cases (t.tick + 1 == e.links.tick)) [
          | inr other ↦ inl (ground arith)
          | inl same ↦
              let at : t.tick + 1 ≡ e.links.tick = ground arith in
              let size_at = ap (λ n. size (slots (bit_and t.mask n))) at in
              let le = ahead-le k (slots slot) in inr (next ∙ at, rw (all, size_at) le)
        ]
      ]
      | inr (same, one, (x, live, later)) ↦ elim w.to_come [
        | inl before ↦ inl (omega arith)
        | inr (at, le) ↦ let other = not_passed x live later at in inr (same ∙ at, omega arith)
      ]
    ]

    pub Waits-GoesOn : Waits t'
    Waits-GoesOn = record {
      ordered = g.ordered;
      live = ap (λ es. es k) g.entries ∙ w.live;
      to_come =
          subst
            (λ m.
              (t'.tick < e.links.tick)
              ⊎ ((t'.tick ≡ e.links.tick)
                  × (ahead k (slots (bit_and m e.links.tick)) ≤ left t' slots)))
            (sym g.mask) still_to_come;
    }

  pub Waits-early :
      (t : Timer T) (target : Tick) → Waits t → e.links.tick ≤ target → leb t.tick target ≡ true
  Waits-early t target w due = elim w.to_come [
    | inl before ↦ ground arith
    | inr (at, le) ↦ ground arith
  ]

  -- The loop does not end before an entry has fired.
  pub poll_loop-IsFired :
      (fuel : ℕ) (target : Tick) (t : Timer T)
      → Waits t
      → e.links.tick ≤ target
      → After IsFired (poll_loop fuel target t)
  unfolding poll_loop after_turn
  poll_loop-IsFired zero target t w due = tt
  poll_loop-IsFired (suc fuel) target t w due =
      rw (Waits-early t target w due) (elim (turn-TurnsTo t slots w.ordered) [
        | inl (s, t', got, v') ↦ rw got tt
        | inr (t', got, g) ↦ rw got (poll_loop-IsFired fuel target t' (Waits-GoesOn t t' w g) due)
      ])

module _ {T : Type 0} where
  abbrev pub Fires : (ℕ → Outcome (Option T × Timer T)) → Type 0
  Fires run =
      (enough : ℕ) × (s : T) × (t' : Timer T) × ((fuel : ℕ)
        → enough ≤ fuel
        → run fuel ≡ ok (some s, t'))
      × IsOrdered t'

  pub fired_result :
      (run : ℕ → Outcome (Option T × Timer T)) (enough : ℕ) (r : Option T × Timer T)
      → ((fuel : ℕ) → enough ≤ fuel → run fuel ≡ ok r)
      → IsOrdered r.1
      → After IsFired (ok r)
      → Fires run
  fired_result run enough (none, t) runs v f = absurd f
  fired_result run enough (some s, t) runs v f = (enough, s, t, runs, v)

  -- On an ordered wheel with an entry whose tick is after the tick of the timer and at most the
  -- target, a poll to the target with enough fuel returns a state: it does not panic, does not run
  -- on, and leaves no due entry behind by returning none; the wheel is ordered again.
  pub poll_to-some :
      (target : Tick) (t : Timer T) (k : ℕ) (e : Entry T)
      → IsOrdered t
      → t.entries k ≡ some e
      → t.tick < e.links.tick
      → e.links.tick ≤ target
      → (enough : ℕ) × (s : T) × (t' : Timer T) × ((fuel : ℕ)
          → enough ≤ fuel
          → poll_to fuel target t ≡ ok (some s, t'))
        × IsOrdered t'
  unfolding poll_to
  poll_to-some target t k e (slots, v) live later due =
      let until = if ltb target t.tick then t.tick else target in
      let (enough, r, runs, ord, _) = poll_to-total target t (slots, v) in
      let waits : Waits slots k e t = record { ordered = v; live = live; to_come = inl later } in
      fired_result (λ fuel. poll_to fuel target t) enough r runs ord
        (subst (After IsFired) (runs enough (omega arith))
          (poll_loop-IsFired slots k e enough until t waits (ground arith)))
