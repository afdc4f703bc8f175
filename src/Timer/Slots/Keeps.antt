-- ===== src/Timer/Slots/Keeps.antt =====
-- Each operation of src/timer.rs keeps what is still to come.
use sickle.Base.{
  ℕ, zero, suc, ◌<◌, ◌≡◌, ◌≢◌, refl, sym, ap, ◌∙◌, ◌⊎◌, inl, inr, false, Option, none, some, List,
  ◌==◌, leb, arith, Bool-cases, Option-cases, ok, After, After-bind, After-last,
}
use sickle.Bits.{bit_and}
use sickle.Timer.Defs.{Tick, empty, Entry, new_entry, Timeout, Inner, Timer}
use sickle.Timer.Ops.{insert, cancel_timeout, unlink_and_remove, schedule_readiness}
use sickle.Timer.Poll.{next_tick, schedule_next, after_turn, rearm, poll_loop}
use sickle.Timer.Slots.Links.{unlinked, relinked}
use sickle.Timer.Slots.Unlink.{Removed}
use sickle.Timer.Slots.Wheel.{IsWheel, IsOrdered}
use sickle.Timer.Slots.Removal.{slots_without}
use sickle.Timer.Slots.Joined.{slots_with, joined}
use sickle.Timer.Slots.Insert.{insert-IsWheel}
use sickle.Timer.Slots.Cancel.{unlink_and_remove-IsWheel}
use sickle.Timer.Slots.Turns.{HasFired, turn-TurnsTo}
use sickle.Timer.Slots.Returns.{kept-IsWheel}
use sickle.Timer.Slots.Fires.{Waits, Waits-GoesOn}
use sickle.Timer.Slots.Owed.{Waits-Removed, Waits-Inserted}

module _ {T : Type 0} where
  -- The entry at `k` with this state and tick is still to come.
  abbrev pub IsOwed : Timer T → ℕ → T → Tick → Type 0
  IsOwed t k s tick =
      (slots : ℕ → List ℕ) × (e : Entry T) × Waits slots k e t
      × (e.state ≡ s)
      × (e.links.tick ≡ tick)

  cancel_cases :
      (t : Timer T) (timeout : Timeout)
      → (cancel_timeout t timeout ≡ ok (none, t))
        ⊎ ((e : Entry T) × (t.entries timeout.token ≡ some e)
            × (cancel_timeout t timeout ≡ unlink_and_remove t e.links timeout.token))
  unfolding cancel_timeout
  cancel_cases t timeout = elim (Option-cases (t.entries timeout.token)) [
    | inl gone ↦ inl (ground arith)
    | inr (e, live) ↦ elim (Bool-cases (e.links.tick == timeout.tick)) [
      | inl same ↦ inr (e, live, ground arith)
      | inr other ↦ inl (ground arith)
    ]
  ]

  -- Two timers that differ only in what is shared with the wakeup thread.
  abbrev Same : Timer T → Timer T → Type 0
  Same t t' =
      (t'.entries ≡ t.entries)
      × (t'.mask ≡ t.mask)
      × (t'.wheel ≡ t.wheel)
      × (t'.next ≡ t.next)
      × (t'.tick ≡ t.tick)

  schedule_next-Same :
      (t : Timer T) (i : Inner) (tick : Option Tick)
      → Same t (schedule_next (record t { inner = some i }) tick)
  unfolding schedule_next schedule_readiness
  schedule_next-Same t i none = (refl, refl, refl, refl, refl)
  schedule_next-Same t i (some tick) = (refl, refl, refl, refl, refl)

  rearm-Same : (t : Timer T) → After (Same t) (rearm t)
  unfolding rearm
  rearm-Same t = elim (Option-cases t.inner) [
    | inl off ↦ rw (off, rearm) ((refl, refl, refl, refl, refl))
    | inr (i, on) ↦
        let shown : Inner = record i { readiness = 0 } in
        rw (on, rearm)
          (After-last (Same t) (next_tick (record t { inner = some shown }))
            (λ tick. ok (schedule_next (record t { inner = some shown }) tick))
            (schedule_next-Same t shown))
  ]

  pub Waits-Same :
      (slots : ℕ → List ℕ) (k : ℕ) (e : Entry T) (t t' : Timer T)
      → Waits slots k e t
      → Same t t'
      → Waits slots k e t'
  Waits-Same slots k e t t' w (entries, mask, wheel, next, at) = record {
    ordered = kept-IsWheel t t' slots w.ordered entries mask wheel next at;
    live = ap (λ es. es k) entries ∙ w.live;
    to_come = rw (mask, next, at) w.to_come;
  }

  module _ (t : Timer T) (k : ℕ) (s : T) (tick : Tick) where
    pub insert-IsOwed_self :
        IsOrdered t
        → t.entries k ≡ none
        → k ≢ empty
        → t.tick < tick
        → After (λ r. IsOwed r.1 k s tick) (insert t k tick s)
    unfolding joined
    insert-IsOwed_self (slots, v) free real later =
        let (t', runs, r, v') = insert-IsWheel t k tick s slots v free real in
        rw runs (
          slots_with slots (bit_and t.mask tick) k,
          new_entry s tick (t.wheel (bit_and t.mask tick)).head,
          record {
            ordered = v';
            live = ground (arith, r.entries k);
            to_come = inl (rw r.tick later);
          },
          refl,
          refl,
        )

    module _ (owed : IsOwed t k s tick) where
      pub insert-IsOwed :
          (key : ℕ) (tick' : Tick) (s' : T)
          → t.entries key ≡ none
          → key ≢ empty
          → After (λ r. IsOwed r.1 k s tick) (insert t key tick' s')
      insert-IsOwed key tick' s' free real =
          let (slots, e, w, state, on) = owed in
          let (t', runs, r, v') = insert-IsWheel t key tick' s' slots w.ordered free real in
          let (e', w', state', on') =
            Waits-Inserted slots k e t t' w key (bit_and t.mask tick') _ free real r v' in
          rw runs (slots_with slots (bit_and t.mask tick') key, e', w', state' ∙ state, on' ∙ on)

      -- After another entry or this one is taken out.
      Removed-IsOwed :
          (t' : Timer T) (slots : ℕ → List ℕ) (e : Entry T) (key : ℕ) (gone : Entry T)
          → Waits slots k e t
          → e.state ≡ s
          → e.links.tick ≡ tick
          → t.entries key ≡ some gone
          → Removed t key gone.links t'
          → IsWheel t' (slots_without slots (bit_and t.mask gone.links.tick) key)
          → ((k ≡ key) × (t'.entries k ≡ none)) ⊎ IsOwed t' k s tick
      unfolding unlinked
      Removed-IsOwed t' slots e key gone w state on live r v = elim (Bool-cases (k == key)) [
        | inl same ↦ inl (ground arith, ground (arith, r.entries k))
        | inr other ↦ inr (
          slots_without slots (bit_and t.mask gone.links.tick) key,
          relinked gone.links k e,
          Waits-Removed slots k e t t' w key gone live (ground arith) r v,
          state,
          on,
        )
      ]

      pub cancel_timeout-IsOwed :
          (timeout : Timeout)
          → After (λ r. (r.1.entries k ≡ none) ⊎ IsOwed r.1 k s tick) (cancel_timeout t timeout)
      cancel_timeout-IsOwed timeout =
          let (slots, e, w, state, on) = owed in
          elim (cancel_cases t timeout) [
            | inl kept ↦ rw kept (inr owed)
            | inr (gone, live, runs) ↦
                let (t', got, r, v) =
                  unlink_and_remove-IsWheel t slots timeout.token gone w.ordered live in
                rw (runs, got)
                  (elim (Removed-IsOwed t' slots e timeout.token gone w state on live r v) [
                    | inl (same, out) ↦ inl out
                    | inr still ↦ inr still
                  ])
          ]

  module _ (k : ℕ) (s : T) (tick : Tick) where
    -- A poll that returns none was to an earlier tick; one that returns a state may have fired the entry.
    abbrev pub Polled : Tick → Option T × Timer T → Type 0
    Polled until (none, t') = (until < tick) × IsOwed t' k s tick
    Polled until (some x, t') = ((x ≡ s) × (t'.entries k ≡ none)) ⊎ IsOwed t' k s tick

    passed :
        (t1 : Timer T) (until : Tick) (slots : ℕ → List ℕ) (e : Entry T)
        → Waits slots k e t1
        → leb t1.tick until ≡ false
        → e.links.tick ≡ tick
        → until < tick
    passed t1 until slots e w late on = elim w.to_come [
      | inl before ↦ ground arith
      | inr (at, le) ↦ ground arith
    ]

    -- The entry that fired is this one, or this one is still to come.
    fired_or_IsOwed :
        (t1 : Timer T) (x : T) (t' : Timer T) (slots : ℕ → List ℕ) (e : Entry T)
        → Waits slots k e t1
        → e.state ≡ s
        → e.links.tick ≡ tick
        → HasFired t1 slots x t'
        → ((x ≡ s) × (t'.entries k ≡ none)) ⊎ IsOwed t' k s tick
    fired_or_IsOwed t1 x t' slots e w state on f =
        elim (Removed-IsOwed t1 k s tick (slots, e, w, state, on) t' slots e t1.next f.entry w state
          on f.live f.removed f.ordered) [
            | inl (same, out) ↦
                let both : e ≡ f.entry = ground (arith, w.live, f.live, ap t1.entries same) in
                inl (f.state ∙ sym (ap (λ (y : Entry T). y.state) both) ∙ state, out)
            | inr still ↦ inr still
          ]

    pub poll_loop-Polled :
        (fuel : ℕ) (until : Tick) (t1 : Timer T) (slots : ℕ → List ℕ) (e : Entry T)
        → Waits slots k e t1
        → e.state ≡ s
        → e.links.tick ≡ tick
        → After (Polled until) (poll_loop fuel until t1)
    unfolding poll_loop after_turn
    poll_loop-Polled zero until t1 slots e w state on = tt
    poll_loop-Polled (suc fuel) until t1 slots e w state on =
        elim (Bool-cases (leb t1.tick until)) [
          | inr late ↦ rw late (
              After-bind (Same t1) (Polled until) (rearm t1) (λ (t' : Timer T). ok (none, t'))
                (rearm-Same t1)
                (λ t' h. (
                  passed t1 until slots e w late on,
                  (slots, e, Waits-Same slots k e t1 t' w h, state, on),
                )))
          | inl early ↦ rw early (elim (turn-TurnsTo t1 slots w.ordered) [
            | inl (x, t', got, f) ↦ rw got (fired_or_IsOwed t1 x t' slots e w state on f)
            | inr (t', got, g) ↦
                rw got (
                  poll_loop-Polled fuel until t' slots e (Waits-GoesOn slots k e t1 t' w g) state
                    on)
          ])
        ]
