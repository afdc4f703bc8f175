-- ===== src/Timer/Late.antt =====
-- A timeout for the tick that the timer stands at, src/timer.rs.
use sickle.Base.{
  ℕ, zero, suc, false, true, ◌+◌, ◌-◌, ◌%◌, ◌≤◌, ◌<◌, ◌≡◌, ◌≢◌, refl, Option, none, some, ap, ◌∙◌,
  ok, arith, update, if◌then◌else◌, leb, ltb, min, inl, inr, Option-cases,
}
use sickle.Bits.{bit_and_comm, bit_and_mask}
use sickle.Timer.Defs.{Tick, tick_max, empty, Entry, Timer, new_entry}
use sickle.Timer.Ops.{slot_for, schedule_readiness, insert}
use sickle.Timer.Poll.{
  next_slot, go_on, turn, rearm, poll_loop, poll_to, schedule_next, next_tick, least_tick,
}

-- The wheel of the event loop has 1024 slots.
slot_for-mod : {T : Type 0} (t : Timer T) (tick : ℕ) → t.mask ≡ 1023 → slot_for t tick ≡ tick % 1024
unfolding slot_for
slot_for-mod t tick h = rw h (bit_and_comm 1023 tick ∙ bit_and_mask 10 tick)

module _ {T : Type 0} where
  -- The timer of 1024 slots stands between two slots, and its wheel is empty but for the slot of tick
  -- `start`.
  pub record IsWaiting (start : Tick) (t : Timer T) : Type 0 where
    pub between : t.next ≡ empty
    pub slots : t.mask ≡ 1023
    pub others_empty : (s : ℕ) → s ≢ start % 1024 → (t.wheel s).head ≡ empty

  next_slot-IsWaiting :
      (start : Tick) (t : Timer T)
      → IsWaiting start t
      → start ≤ t.tick
      → t.tick + 1 < start + 1024
      → IsWaiting start (next_slot t) × ((next_slot t).tick ≡ t.tick + 1)
  unfolding next_slot
  next_slot-IsWaiting start t w h g =
      let slot = slot_for t (t.tick + 1) in
      let at : slot ≡ (t.tick + 1) % 1024 = slot_for-mod t (t.tick + 1) w.slots in
      let clear : (t.wheel slot).head ≡ empty = w.others_empty slot (omega arith) in
      (
        record {
          between = ground arith;
          slots = ground arith;
          others_empty = λ s ne. ground (arith, w.others_empty s);
        },
        ground arith,
      )

  next_slot-entries : (t : Timer T) → (next_slot t).entries ≡ t.entries
  unfolding next_slot
  next_slot-entries t = ground arith

  schedule_next-entries :
      (t : Timer T) (tick : Option Tick) → (schedule_next t tick).entries ≡ t.entries
  unfolding schedule_next schedule_readiness
  schedule_next-entries t none = refl
  schedule_next-entries t (some tick) = ground arith

  -- A timer between two slots is armed again without a look at an entry.
  rearm-between :
      (t : Timer T) → t.next ≡ empty → (t' : Timer T) × (rearm t ≡ ok t') × (t'.entries ≡ t.entries)
  unfolding rearm next_tick
  rearm-between t h = elim (Option-cases t.inner) [
    | inl off ↦ (t, ground arith, refl)
    | inr (i, on) ↦
        let t1 : Timer T = record t { inner = some (record i { readiness = 0 }) } in
        let tick : Option Tick = some (least_tick t.wheel t.num_slots tick_max) in
        (schedule_next t1 tick, ground arith, schedule_next-entries t1 tick)
  ]

  turn-next_slot : (t : Timer T) → t.next ≡ empty → turn t ≡ ok (go_on (next_slot t))
  unfolding turn
  turn-next_slot t h = rw h

  -- The loop reaches the end of its ticks and finds nothing.
  poll_loop-none :
      (fuel n : ℕ) (start target : Tick) (t : Timer T)
      → IsWaiting start t
      → start ≤ t.tick
      → target + 1 < start + 1024
      → t.tick + n ≡ target + 1
      → n < fuel
      → (t' : Timer T) × (poll_loop fuel target t ≡ ok (none, t')) × (t'.entries ≡ t.entries)
  unfolding poll_loop
  poll_loop-none zero n start target t w h g e f = absurd (omega arith)
  poll_loop-none (suc fuel) zero start target t w h g e f =
      let late : leb t.tick target ≡ false = ground arith in
      let (t', armed, same) = rearm-between t w.between in (t', rw (late, armed) refl, same)
  poll_loop-none (suc fuel) (suc n) start target t w h g e f =
      let early : leb t.tick target ≡ true = ground arith in
      let (w', ticked) = next_slot-IsWaiting start t w h (omega arith) in
      let (t', done, same) =
        poll_loop-none fuel n start target (next_slot t) w' (omega arith) g (omega arith)
          (omega arith) in
      (t', rw (early, turn-next_slot t w.between) done, same ∙ next_slot-entries t)

  poll_to-poll_loop :
      (fuel : ℕ) (target : Tick) (t : Timer T)
      → t.tick ≤ target
      → poll_to fuel target t ≡ poll_loop fuel target t
  unfolding poll_to
  poll_to-poll_loop fuel target t h =
      ap (λ (k : Tick). poll_loop fuel k t)
        (let e : (if ltb target t.tick then t.tick else target) ≡ target = ground arith in e)

  -- `insert` into an empty slot.
  unfoldable pub inserted : Timer T → ℕ → Tick → T → Timer T
  inserted t key tick state =
      let slot = slot_for t tick in
      record t {
        entries = update t.entries key (some (new_entry state tick empty));
        wheel =
            update t.wheel slot
              (record { next_tick = min tick (t.wheel slot).next_tick; head = key });
      }

  insert-inserted :
      (t : Timer T) (key : ℕ) (tick : Tick) (state : T)
      → (t.wheel (slot_for t tick)).head ≡ empty
      → insert t key tick state
        ≡ ok (
          record { token = key; tick = tick },
          schedule_readiness (inserted t key tick state) tick,
        )
  unfolding insert inserted
  insert-inserted t key tick state clear = rw clear refl

  -- Telling the wakeup thread of a tick changes nothing of the wheel.
  told-IsWaiting :
      (start tick : Tick) (t : Timer T)
      → IsWaiting start t
      → IsWaiting start (schedule_readiness t tick)
        × ((schedule_readiness t tick).tick ≡ t.tick)
        × ((schedule_readiness t tick).entries ≡ t.entries)
  unfolding schedule_readiness
  told-IsWaiting start tick t w = elim (Option-cases t.inner) [
    | inl off ↦ (
      record {
        between = ground arith;
        slots = ground arith;
        others_empty = λ s ne. ground (arith, w.others_empty s);
      },
      ground arith,
      ground arith,
    )
    | inr (i, on) ↦ (
      record {
        between = ground arith;
        slots = ground arith;
        others_empty = λ s ne. ground (arith, w.others_empty s);
      },
      ground arith,
      ground arith,
    )
  ]

  -- A timeout that is set for the very tick at which the timer stands, where the timer has 1024 slots,
  -- stands between two of them, and has no entry in any slot, is not returned before the wheel has gone
  -- round: after inserting it, a poll with enough fuel to any tick of the same revolution, however far
  -- after the timeout is due, gives no state and keeps the entry. The timer may be registered or not.
  pub insert-late :
      (fuel : ℕ) (t : Timer T) (key : ℕ) (state : T) (target : Tick)
      → IsWaiting t.tick t
      → (t.wheel (slot_for t t.tick)).head ≡ empty
      → t.tick ≤ target
      → target + 1 < t.tick + 1024
      → target + 1 < t.tick + fuel
      → (t1 : Timer T) × (t2 : Timer T) × (insert t key t.tick state
          ≡ ok (record { token = key; tick = t.tick }, t1))
        × (poll_to fuel target t1 ≡ ok (none, t2))
        × (t2.entries key ≡ some (new_entry state t.tick empty))
  unfolding inserted
  insert-late fuel t key state target w clear h g f =
      let put = inserted t key t.tick state in
      let at : slot_for t t.tick ≡ t.tick % 1024 = slot_for-mod t t.tick w.slots in
      let w0 : IsWaiting t.tick put = record {
        between = w.between;
        slots = w.slots;
        others_empty = λ s ne. ground (arith, w.others_empty s);
      } in
      let t1 = schedule_readiness put t.tick in
      let (w1, ticked, kept) = told-IsWaiting t.tick t.tick put w0 in
      let (t2, none_fired, same) =
        poll_loop-none fuel (target + 1 - t.tick) t.tick target t1 w1 (omega arith) g (omega arith)
          (omega arith) in
      (
        t1,
        t2,
        insert-inserted t key t.tick state clear,
        poll_to-poll_loop fuel target t1 (omega arith) ∙ none_fired,
        ground (arith, ap (λ (f : ℕ → Option (Entry T)). f key) (same ∙ kept)),
      )
