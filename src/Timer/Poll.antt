-- ===== src/Timer/Poll.antt =====
-- `Timer::poll` of src/timer.rs. The loop of `poll_to` runs on fuel.
use sickle.Base.{
  ℕ, zero, suc, ◌+◌, Option, none, some, ◌==◌, ltb, leb, min, if◌then◌else◌, Outcome, ok,
  out_of_fuel, ◌>>=◌, unwrap,
}
use sickle.Duration.{Duration}
use sickle.Timer.Defs.{Tick, empty, tick_max, Entry, WheelEntry, Timer}
use sickle.Timer.Ops.{
  slot_for, set_next_tick, schedule_readiness, unlink_and_remove, duration_to_tick,
}

-- What one round of the loop does: go on, or return a state.
pub data Turn (T : Type 0) : Type 0 where
  go_on : Timer T → Turn T
  fired : T → Timer T → Turn T

-- The least `next_tick` of the slots below `n`, and `acc`.
unfoldable pub least_tick : (ℕ → WheelEntry) → ℕ → Tick → Tick
least_tick wheel zero acc = acc
least_tick wheel (suc n) acc = least_tick wheel n (min (wheel n).next_tick acc)

module _ {T : Type 0} where
  -- No entry is left in the slot: the wheel turns by one tick. The source's tick is a u64, whose addition panics
  -- or wraps at the largest one; a poll to a target below that does not get there.
  unfoldable pub next_slot : Timer T → Timer T
  next_slot t =
      let tick = t.tick + 1 in
      let slot = slot_for t tick in
      let t1 : Timer T = record t { tick = tick; next = (t.wheel slot).head } in
      if t1.next == empty then set_next_tick t1 slot tick_max else t1

  -- The entry `e` at `curr` is due, or is passed over.
  unfoldable pub visit_entry : Timer T → (slot curr : ℕ) → Entry T → Outcome (Turn T)
  visit_entry t slot curr e =
      if leb e.links.tick t.tick
      then (do (state, t1) ← unlink_and_remove t e.links curr; s ← unwrap state; ok (fired s t1))
      else ok (
          go_on (record (set_next_tick t slot (min (t.wheel slot).next_tick e.links.tick)) {
            next = e.links.next;
          }))

  unfoldable pub visit : Timer T → ℕ → Outcome (Turn T)
  visit t curr =
      let slot = slot_for t t.tick in
      let t1 : Timer T = if curr == (t.wheel slot).head then set_next_tick t slot tick_max else t in
      do e ← unwrap (t1.entries curr); visit_entry t1 slot curr e

  unfoldable pub turn : Timer T → Outcome (Turn T)
  turn t = if t.next == empty then ok (go_on (next_slot t)) else visit t t.next

  -- The wheel has at least one slot, so its minimum is always there; no `next_tick` exceeds `tick_max`.
  unfoldable pub next_tick : Timer T → Outcome (Option Tick)
  unfolding slot_for least_tick
  next_tick t =
      let over_wheel : Outcome (Option Tick) =
        ok (some (least_tick t.wheel t.num_slots tick_max)) in
      if t.next == empty then over_wheel else (do
        e ← unwrap (t.entries t.next)
        if (t.wheel (slot_for t e.links.tick)).next_tick == t.tick
            then ok (some t.tick)
            else over_wheel)

  unfoldable pub schedule_next : Timer T → Option Tick → Timer T
  schedule_next t none = t
  schedule_next t (some tick) = schedule_readiness t tick

  -- The end of `poll_to`: the readiness is cleared, and the thread told of the next tick.
  unfoldable pub rearm : Timer T → Outcome (Timer T)
  rearm t = elim t.inner [
    | none ↦ ok t
    | some inner ↦
        let t1 : Timer T = record t { inner = some (record inner { readiness = 0 }) } in
        next_tick t1 >>= λ tick. ok (schedule_next t1 tick)
  ]

  unfoldable pub after_turn :
      (Timer T → Outcome (Option T × Timer T)) → Turn T → Outcome (Option T × Timer T)
  after_turn loop (go_on t) = loop t
  after_turn loop (fired s t) = ok (some s, t)

  unfoldable pub poll_loop : ℕ → Tick → Timer T → Outcome (Option T × Timer T)
  unfolding after_turn
  poll_loop zero target t = out_of_fuel
  poll_loop (suc fuel) target t =
      if leb t.tick target
      then (do r ← turn t; after_turn (poll_loop fuel target) r)
      else (do t1 ← rearm t; ok (none, t1))

  unfoldable pub poll_to : ℕ → Tick → Timer T → Outcome (Option T × Timer T)
  unfolding poll_loop turn next_slot visit visit_entry slot_for unlink_and_remove rearm next_tick
      schedule_next schedule_readiness
  poll_to fuel target t = poll_loop fuel (if ltb target t.tick then t.tick else target) t

  -- `elapsed` is what the clock shows.
  unfoldable pub poll : ℕ → Duration → Timer T → Outcome (Option T × Timer T)
  unfolding poll_to duration_to_tick
  poll fuel elapsed t = do target ← duration_to_tick elapsed t.tick_ms; poll_to fuel target t
