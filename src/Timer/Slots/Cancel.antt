-- ===== src/Timer/Slots/Cancel.antt =====
-- `cancel_timeout` on a wheel in order, src/timer.rs.
use sickle.Base.{
  ℕ, ◌≡◌, inl, inr, Option, none, some, List, ◌==◌, arith, Bool-cases, Option-cases, if◌then◌else◌,
  ok,
}
use sickle.Bits.{bit_and}
use sickle.Timer.Defs.{EntryLinks, Entry, Timeout, Timer}
use sickle.Timer.Ops.{unlink_and_remove, cancel_timeout}
use sickle.Timer.Slots.Links.{unlinked}
use sickle.Timer.Slots.Unlink.{Removed, unlink_and_remove-Removed}
use sickle.Timer.Slots.Wheel.{
  IsWheel, IsOrdered, prev-cases, next-cases, prev-other, next-other, neighbour,
}
use sickle.Timer.Slots.Removal.{slots_without, Removed-IsWheel}

module _ {T : Type 0} where
  -- Any entry of an ordered wheel is taken out without a panic.
  pub unlink_and_remove-IsWheel :
      (t : Timer T) (slots : ℕ → List ℕ) (k : ℕ) (e : Entry T)
      → IsWheel t slots
      → t.entries k ≡ some e
      → (t' : Timer T) × (unlink_and_remove t e.links k ≡ ok (some e.state, t'))
        × Removed t k e.links t'
        × IsWheel t' (slots_without slots (bit_and t.mask e.links.tick) k)
  unlink_and_remove-IsWheel t slots k e v live =
      let slot = bit_and t.mask e.links.tick in
      let (t', runs, r) =
        unlink_and_remove-Removed t e.links k e live v.none_empty (prev-other t slots v k e live)
          (next-other t slots v k e live)
          (neighbour t slots v slot e.links.prev (prev-cases t slots v k e live))
          (neighbour t slots v slot e.links.next (next-cases t slots v k e live)) in
      (t', runs, r, Removed-IsWheel t t' slots k e v live r)

  -- What `cancel_timeout` returns: the state, if the entry is there with the tick of the timeout.
  abbrev pub cancelled : Timer T → Timeout → Option T
  cancelled t timeout = elim (t.entries timeout.token) [
    | none ↦ none
    | some e ↦ if e.links.tick == timeout.tick then some e.state else none
  ]

  abbrev pub timeouts : Timer T → ℕ → Option (T × ℕ)
  timeouts t k = elim (t.entries k) [ none ↦ none | some e ↦ some (e.state, e.links.tick) ]

  Removed-timeouts :
      (t t' : Timer T) (k j : ℕ) (l : EntryLinks)
      → Removed t k l t'
      → timeouts t' j ≡ (if j == k then none else timeouts t j)
  unfolding unlinked
  Removed-timeouts t t' k j l r = elim (Option-cases (t.entries j)) [
    | inl gone ↦ ground (arith, r.entries j)
    | inr (e, live) ↦ ground (arith, r.entries j)
  ]

  -- Cancelling a timeout on an ordered wheel never panics and leaves an ordered wheel. It returns
  -- the state of the timeout exactly if its entry is there with its tick; that entry is then gone,
  -- and every other timeout is still there with its state and tick.
  pub cancel_timeout-IsOrdered :
      (t : Timer T) (timeout : Timeout)
      → IsOrdered t
      → (t' : Timer T) × (cancel_timeout t timeout ≡ ok (cancelled t timeout, t'))
        × IsOrdered t'
        × ((k : ℕ)
            → timeouts t' k ≡ (elim (cancelled t timeout) [
              | none ↦ timeouts t k
              | some s ↦ if k == timeout.token then none else timeouts t k
            ]))
  unfolding cancel_timeout
  cancel_timeout-IsOrdered t timeout (slots, v) = elim (Option-cases (t.entries timeout.token)) [
    | inl gone ↦ (t, ground arith, (slots, v), λ k. ground arith)
    | inr (e, live) ↦ elim (Bool-cases (e.links.tick == timeout.tick)) [
      | inl same ↦
          let (t', runs, r, v') = unlink_and_remove-IsWheel t slots timeout.token e v live in
          (
            t',
            ground (arith, runs),
            (slots_without slots (bit_and t.mask e.links.tick) timeout.token, v'),
            λ k. ground (arith, Removed-timeouts t t' timeout.token k e.links r),
          )
      | inr other ↦ (t, ground arith, (slots, v), λ k. ground arith)
    ]
  ]
