-- ===== src/Timer/Slots/Reached.antt =====
-- The timers that the operations of src/timer.rs lead to.
use sickle.Base.{
  ℕ, zero, suc, ◌≡◌, ◌≢◌, refl, sym, ◌∙◌, subst, inl, inr, Option, none, List, [], leb, ltb,
  Bool-cases, if◌then◌else◌, Outcome, ok, After,
}
use sickle.Timer.Defs.{Tick, empty, Timeout, Inner, Timer, new}
use sickle.Timer.Ops.{insert, cancel_timeout}
use sickle.Timer.Poll.{after_turn, poll_loop, poll_to}
use sickle.Timer.Slots.Wheel.{IsWheel, IsOrdered}
use sickle.Timer.Slots.Insert.{insert-IsOrdered}
use sickle.Timer.Slots.Cancel.{cancel_timeout-IsOrdered}
use sickle.Timer.Slots.Turns.{turn-TurnsTo}
use sickle.Timer.Slots.Returns.{kept-IsWheel, rearm-returns}

module _ {T : Type 0} where
  -- A new timer, and what becomes of it by a timeout set under a free key, a cancelled timeout, a poll,
  -- and a change of what it shares with the wakeup thread.
  pub data Reached : Timer T → Type 0 where
    fresh : (tick_ms num_slots capacity : ℕ) → Reached (new tick_ms num_slots capacity)
    inserts :
        {t t' : Timer T} (key : ℕ) (tick : Tick) (state : T) (timeout : Timeout)
        → Reached t
        → t.entries key ≡ none
        → key ≢ empty
        → insert t key tick state ≡ ok (timeout, t')
        → Reached t'
    cancels :
        {t t' : Timer T} (timeout : Timeout) (state : Option T)
        → Reached t
        → cancel_timeout t timeout ≡ ok (state, t')
        → Reached t'
    polls :
        {t t' : Timer T} (fuel : ℕ) (target : Tick) (state : Option T)
        → Reached t
        → poll_to fuel target t ≡ ok (state, t')
        → Reached t'
    shares : {t : Timer T} (inner : Option Inner) → Reached t → Reached (record t { inner = inner })

  new-IsWheel :
      (tick_ms num_slots capacity : ℕ) → IsWheel (new {T = T} tick_ms num_slots capacity) (λ _. [])
  unfolding new
  new-IsWheel tick_ms num_slots capacity = record {
    heads = λ s. refl;
    linked = λ s. tt;
    distinct = λ s. tt;
    listed = λ k e live. cc;
    none_empty = refl;
    current = inl refl;
  }

  -- An operation has one result.
  result :
      {A : Type 0} {a : A} (t : Timer T) (a' : A) (t' : Timer T)
      → IsOrdered t
      → ◌≡◌ {A = Outcome (A × Timer T)} (ok (a, t)) (ok (a', t'))
      → IsOrdered t'
  result {A} t a' t' v same = subst (After (λ (x : A × Timer T). IsOrdered x.1)) same v

  abbrev Ordered : Option T × Timer T → Type 0
  Ordered r = IsOrdered r.1

  poll_loop-IsOrdered :
      (fuel : ℕ) (target : Tick) (t : Timer T)
      → (slots : ℕ → List ℕ) → IsWheel t slots
      → After Ordered (poll_loop fuel target t)
  unfolding poll_loop after_turn
  poll_loop-IsOrdered zero target t slots v = tt
  poll_loop-IsOrdered (suc fuel) target t slots v = elim (Bool-cases (leb t.tick target)) [
    | inr late ↦ let (t', got, v', _) = rearm-returns t slots v in rw (late, got) (slots, v')
    | inl early ↦ rw early (elim (turn-TurnsTo t slots v) [
      | inl (s, t', got, f) ↦ rw got (_, f.ordered)
      | inr (t', got, g) ↦ rw got (poll_loop-IsOrdered fuel target t' slots g.ordered)
    ])
  ]

  -- Every timer that new, insert, cancel_timeout and poll_to lead to, with any keys that are free
  -- and any changes of what it shares with the wakeup thread, has an ordered wheel: each slot is a
  -- list of distinct entries of its ticks, linked in both directions from its head, every entry of
  -- the slab is in one, and the timer stands between two slots or at an entry of its slot.
  pub Reached-IsOrdered : {t : Timer T} → Reached t → IsOrdered t
  unfolding poll_to
  Reached-IsOrdered (fresh tick_ms num_slots capacity) =
      (λ _. [], new-IsWheel tick_ms num_slots capacity)
  Reached-IsOrdered (inserts {t} {t'} key tick state timeout r free real got) =
      let (t1, runs, v, _) = insert-IsOrdered t key tick state (Reached-IsOrdered r) free real in
      result t1 timeout t' v (sym runs ∙ got)
  Reached-IsOrdered (cancels {t} {t'} timeout state r got) =
      let (t1, runs, v, _) = cancel_timeout-IsOrdered t timeout (Reached-IsOrdered r) in
      result t1 state t' v (sym runs ∙ got)
  Reached-IsOrdered (polls {t} {t'} fuel target state r got) =
      let (slots, v) = Reached-IsOrdered r in
      subst (After Ordered) got
        (poll_loop-IsOrdered fuel (if ltb target t.tick then t.tick else target) t slots v)
  Reached-IsOrdered (shares {t} inner r) =
      let (slots, v) = Reached-IsOrdered r in
      (slots, kept-IsWheel t (record t { inner = inner }) slots v refl refl refl refl refl)
