-- ===== src/Timer/Slots/Returns.antt =====
-- The loop of `poll_to` on a wheel in order, src/timer.rs: it comes to an end and does not panic.
use sickle.Base.{
  ℕ, zero, suc, ◌+◌, ◌<◌, ◌≤◌, ◌≡◌, refl, ap, inl, inr, true, false, Option, none, some, List, ◌==◌,
  leb, ltb, arith, Bool-cases, Option-cases, if◌then◌else◌, Outcome, ok,
}
use sickle.Bits.{bit_and}
use sickle.Timer.Defs.{Tick, empty, tick_max, Timer}
use sickle.Timer.Ops.{slot_for, schedule_readiness}
use sickle.Timer.Poll.{
  go_on, fired, turn, next_tick, schedule_next, rearm, least_tick, after_turn, poll_loop, poll_to,
}
use sickle.Timer.Slots.Wheel.{IsWheel, IsOrdered, entry_at}
use sickle.Timer.Slots.Turns.{moved-IsWheel, left, turn-TurnsTo}

module _ {T : Type 0} where
  -- Only the rest of the timer changes.
  pub kept-IsWheel :
      (t t' : Timer T) (slots : ℕ → List ℕ)
      → IsWheel t slots
      → t'.entries ≡ t.entries
      → t'.mask ≡ t.mask
      → t'.wheel ≡ t.wheel
      → t'.next ≡ t.next
      → t'.tick ≡ t.tick
      → IsWheel t' slots
  kept-IsWheel t t' slots v same mask wheel next tick =
      moved-IsWheel t t' slots v same mask (λ s. ap (λ w. (w s).head) wheel)
        (rw (next, mask, tick) v.current)

  pub schedule_next-IsWheel :
      (t : Timer T) (slots : ℕ → List ℕ) (tick : Option Tick)
      → IsWheel t slots
      → IsWheel (schedule_next t tick) slots
  unfolding schedule_next schedule_readiness
  schedule_next-IsWheel t slots none v = v
  schedule_next-IsWheel t slots (some tick) v = elim (Option-cases t.inner) [
    | inl off ↦
        kept-IsWheel t (schedule_next t (some tick)) slots v (ground arith) (ground arith)
          (ground arith) (ground arith) (ground arith)
    | inr (i, on) ↦
        kept-IsWheel t (schedule_next t (some tick)) slots v (ground arith) (ground arith)
          (ground arith) (ground arith) (ground arith)
  ]

  schedule_next-tick : (t : Timer T) (tick : Option Tick) → (schedule_next t tick).tick ≡ t.tick
  unfolding schedule_next schedule_readiness
  schedule_next-tick t none = refl
  schedule_next-tick t (some tick) = ground arith

  pub next_tick-returns :
      (t : Timer T) (slots : ℕ → List ℕ)
      → IsWheel t slots
      → (tick : Option Tick) × (next_tick t ≡ ok tick)
  unfolding next_tick
  next_tick-returns t slots v = elim (Bool-cases (t.next == empty)) [
    | inl between ↦ (some (least_tick t.wheel t.num_slots tick_max), ground arith)
    | inr at ↦ elim v.current [
      | inl h ↦ absurd (ground arith)
      | inr m ↦
          let (e, live, _, _) = entry_at t slots v (bit_and t.mask t.tick) t.next m in
          (
            if (t.wheel (slot_for t e.links.tick)).next_tick == t.tick
                then some t.tick
                else some (least_tick t.wheel t.num_slots tick_max),
            ground (arith, live),
          )
    ]
  ]

  pub rearm-returns :
      (t : Timer T) (slots : ℕ → List ℕ)
      → IsWheel t slots
      → (t' : Timer T) × (rearm t ≡ ok t') × IsWheel t' slots × (t'.tick ≡ t.tick)
  unfolding rearm
  rearm-returns t slots v = elim (Option-cases t.inner) [
    | inl off ↦ (t, ground arith, v, refl)
    | inr (i, on) ↦
        let t1 : Timer T = record t { inner = some (record i { readiness = 0 }) } in
        let v1 = moved-IsWheel t t1 slots v refl refl (λ s. refl) v.current in
        let (tick, got) = next_tick-returns t1 slots v1 in
        (
          schedule_next t1 tick,
          ground (arith, got),
          schedule_next-IsWheel t1 slots tick v1,
          schedule_next-tick t1 tick,
        )
  ]

  -- From some fuel on, the poll returns the same result, with the wheel in order and the tick at most
  -- at `last`.
  abbrev pub Returns : (last : Tick) → (ℕ → Outcome (Option T × Timer T)) → Type 0
  Returns last run =
      (enough : ℕ) × (r : Option T × Timer T) × ((fuel : ℕ) → enough ≤ fuel → run fuel ≡ ok r)
      × IsOrdered r.1
      × (r.1.tick ≤ last)

  Returns-late :
      (target : Tick) (t : Timer T) (slots : ℕ → List ℕ)
      → IsWheel t slots
      → leb t.tick target ≡ false
      → t.tick ≤ target + 1
      → Returns (target + 1) (λ fuel. poll_loop fuel target t)
  unfolding poll_loop
  Returns-late target t slots v late near =
      let (t', got, v', same) = rearm-returns t slots v in
      (1, (none, t'), runs t' got, (slots, v'), rw same near)
    where
      runs :
          (t' : Timer T)
          → rearm t ≡ ok t'
          → (fuel : ℕ) → 1 ≤ fuel
          → poll_loop fuel target t ≡ ok (none, t')
      runs t' got zero h = absurd (omega arith)
      runs t' got (suc fuel) h = ground (arith, got)

  Returns-fired :
      (target : Tick) (t t' : Timer T) (s : T)
      → leb t.tick target ≡ true
      → turn t ≡ ok (fired s t')
      → IsOrdered t'
      → t'.tick ≤ target + 1
      → Returns (target + 1) (λ fuel. poll_loop fuel target t)
  unfolding poll_loop after_turn
  Returns-fired target t t' s early got v' near = (1, (some s, t'), runs, v', near)
    where
      runs : (fuel : ℕ) → 1 ≤ fuel → poll_loop fuel target t ≡ ok (some s, t')
      runs zero h = absurd (omega arith)
      runs (suc fuel) h = ground (arith, got)

  Returns-go_on :
      (target : Tick) (t t' : Timer T)
      → leb t.tick target ≡ true
      → turn t ≡ ok (go_on t')
      → Returns (target + 1) (λ fuel. poll_loop fuel target t')
      → Returns (target + 1) (λ fuel. poll_loop fuel target t)
  unfolding poll_loop after_turn
  Returns-go_on target t t' early got (enough, r, later, v', near) = (suc enough, r, runs, v', near)
    where
      runs : (fuel : ℕ) → suc enough ≤ fuel → poll_loop fuel target t ≡ ok r
      runs zero h = absurd (omega arith)
      runs (suc fuel) h = rw (early, got) (later fuel (omega arith))

  -- A poll returns if it does so at the next tick and further on in the slot.
  Returns-turn :
      (target : Tick) (t : Timer T) (slots : ℕ → List ℕ)
      → IsWheel t slots
      → t.tick ≤ target + 1
      → ((t' : Timer T)
          → IsWheel t' slots
          → t'.tick ≡ t.tick + 1
          → t'.tick ≤ target + 1
          → Returns (target + 1) (λ fuel. poll_loop fuel target t'))
      → ((t' : Timer T)
          → IsWheel t' slots
          → t'.tick ≡ t.tick
          → left t' slots < left t slots
          → Returns (target + 1) (λ fuel. poll_loop fuel target t'))
      → Returns (target + 1) (λ fuel. poll_loop fuel target t)
  Returns-turn target t slots v near next within = elim (Bool-cases (leb t.tick target)) [
    | inr late ↦ Returns-late target t slots v late near
    | inl early ↦ elim (turn-TurnsTo t slots v) [
      | inl (s, t', got, f) ↦
          Returns-fired target t t' s early got (_, f.ordered) (rw (f.removed.tick) near)
      | inr (t', got, g) ↦ Returns-go_on target t t' early got (elim g.further [
        | inl (at, _, _) ↦ next t' g.ordered at (ground (arith, at, early))
        | inr (at, less, _) ↦ within t' g.ordered at (omega arith)
      ])
    ]
  ]

  -- By induction on the ticks to come, and on what is left in the slot.
  poll_loop-Returns :
      (target ticks room : ℕ) (t : Timer T) (slots : ℕ → List ℕ)
      → IsWheel t slots
      → target < t.tick + ticks
      → left t slots ≤ room
      → t.tick ≤ target + 1
      → Returns (target + 1) (λ fuel. poll_loop fuel target t)
  poll_loop-Returns target zero room t slots v to_come fits near =
      Returns-late target t slots v (ground arith) near
  poll_loop-Returns target (suc ticks) zero t slots v to_come fits near =
      Returns-turn target t slots v near
        (λ t' v' at near'.
          poll_loop-Returns target ticks (left t' slots) t' slots v' (omega arith) (omega arith)
            near')
        (λ t' v' at less. absurd (omega arith))
  poll_loop-Returns target (suc ticks) (suc room) t slots v to_come fits near =
      Returns-turn target t slots v near
        (λ t' v' at near'.
          poll_loop-Returns target ticks (left t' slots) t' slots v' (omega arith) (omega arith)
            near')
        (λ t' v' at less.
          poll_loop-Returns target (suc ticks) room t' slots v' (omega arith) (omega arith)
            (omega arith))

  -- A poll returns one result, however much more fuel there is.
  pub poll_to-total :
      (target : Tick) (t : Timer T)
      → IsOrdered t
      → Returns ((if ltb target t.tick then t.tick else target) + 1) (λ fuel. poll_to fuel target t)
  unfolding poll_to
  poll_to-total target t (slots, v) =
      let until = if ltb target t.tick then t.tick else target in
      poll_loop-Returns until (until + 1) (left t slots) t slots v (omega arith) (omega arith)
        (ground arith)

  -- On an ordered wheel, where the target and the timer's tick are below the largest u64, a poll with
  -- enough fuel never panics: it returns one result, however much more fuel there is, leaves an
  -- ordered wheel, and the tick, which only grows, has not gone beyond the largest u64.
  pub poll_to-Returns :
      (target : Tick) (t : Timer T)
      → IsOrdered t
      → target < tick_max
      → t.tick < tick_max
      → Returns tick_max (λ fuel. poll_to fuel target t)
  poll_to-Returns target t v below at =
      let (enough, r, runs, ordered, last) = poll_to-total target t v in
      (enough, r, runs, ordered, ground (arith, last, below, at))
