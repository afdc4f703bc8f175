-- ===== src/Timer/Slots/Tests.antt =====
-- A wheel with two entries in one slot, and runs on it.
use sickle.Base.{
  ◌≢◌, ◌⊎◌, ℕ, ◌≡◌, ◌≤◌, refl, arith, ◌⊎◌, Option, none, some, Outcome, ok, ◌>>=◌, update, ◌==◌,
  if◌then◌else◌,
}
use sickle.Timer.Defs.{tick_max, Entry, Timer, new, new_entry, empty}
use sickle.Timer.Ops.{slot_for, schedule_readiness, insert, cancel_timeout}
use sickle.Timer.Poll.{poll_to}
use sickle.Timer.Slots.Wheel.{IsOrdered}
use sickle.Timer.Slots.Insert.{insert-IsOrdered}
use sickle.Timer.Slots.Cancel.{timeouts, cancel_timeout-IsOrdered}
use sickle.Timer.Slots.Returns.{Returns, poll_to-Returns}
use sickle.Timer.Slots.Fires.{poll_to-some}
use sickle.Timer.Slots.Promise.{Since, now, cancelled, poll_to-delivers}
use sickle.Timer.Slots.Reached.{Reached, fresh, inserts, Reached-IsOrdered}

abbrev clear : Timer ℕ
clear = new 100 4 16

-- Ticks 2 and 6 belong to the same slot of four.
abbrev with_one : Timer ℕ
with_one = record clear {
  entries = update (λ _. none) 0 (some (new_entry 77 2 empty));
  wheel = update clear.wheel 2 (record { next_tick = 2; head = 0 });
}

abbrev last : Entry ℕ
last = record { state = 77; links = record { tick = 2; prev = 1; next = empty } }

abbrev with_two : Timer ℕ
with_two = record with_one {
  entries = update (update with_one.entries 1 (some (new_entry 88 6 0))) 0 (some last);
  wheel = update with_one.wheel 2 (record { next_tick = 2; head = 1 });
}

with_one-Reached : Reached with_one
unfolding new insert schedule_readiness slot_for
with_one-Reached =
    inserts 0 2 77 (record { token = 0; tick = 2 }) (fresh 100 4 16) refl (omega arith) refl

with_two-Reached : Reached with_two
unfolding new insert schedule_readiness slot_for
with_two-Reached =
    inserts 1 6 88 (record { token = 1; tick = 6 }) with_one-Reached refl (omega arith) refl

Reached-IsOrdered_example : IsOrdered with_two
Reached-IsOrdered_example = Reached-IsOrdered with_two-Reached

with_two-IsOrdered : IsOrdered with_two
with_two-IsOrdered = Reached-IsOrdered with_two-Reached

insert-IsOrdered_example :
    (t' : Timer ℕ) × (insert with_one 1 6 88 ≡ ok (record { token = 1; tick = 6 }, t'))
    × IsOrdered t'
    × ((k : ℕ) → timeouts t' k ≡ (if k == 1 then some (88, 6) else timeouts with_one k))
insert-IsOrdered_example =
    insert-IsOrdered with_one 1 6 88 (Reached-IsOrdered with_one-Reached) refl (omega arith)

cancel_timeout-IsOrdered_example :
    (t' : Timer ℕ) × (cancel_timeout with_two (record { token = 0; tick = 2 }) ≡ ok (some 77, t'))
    × IsOrdered t'
    × ((k : ℕ) → timeouts t' k ≡ (if k == 0 then none else timeouts with_two k))
cancel_timeout-IsOrdered_example =
    cancel_timeout-IsOrdered with_two (record { token = 0; tick = 2 }) with_two-IsOrdered

poll_to-Returns_example : Returns tick_max (λ fuel. poll_to fuel 3 with_two)
unfolding new
poll_to-Returns_example = poll_to-Returns 3 with_two with_two-IsOrdered (omega arith) (omega arith)

poll_to-some_example :
    (enough : ℕ) × (s : ℕ) × (t' : Timer ℕ) × ((fuel : ℕ)
      → enough ≤ fuel
      → poll_to fuel 7 with_two ≡ ok (some s, t'))
    × IsOrdered t'
unfolding new
poll_to-some_example =
    poll_to-some 7 with_two 1 (new_entry 88 6 0) with_two-IsOrdered refl (omega arith) (omega arith)

-- Two entries of one slot whose ticks are a revolution apart.
both_due : Outcome (Option ℕ × Option ℕ × Option ℕ)
unfolding new insert poll_to
both_due = do
  (x, a) ← poll_to 20 7 with_two
  (y, b) ← poll_to 20 7 a
  (z, c) ← poll_to 20 7 b
  ok (x, y, z)

both_due_run : both_due ≡ ok (some 77, some 88, none)
unfolding both_due
both_due_run = refl

abbrev without_first : Timer ℕ
without_first = record with_two {
  entries =
      update
        (update with_two.entries 1
          (some (record { state = 88; links = record { tick = 6; prev = empty; next = empty } })))
        0 none;
}

first_cancelled : Since 1 with_two without_first
unfolding new cancel_timeout
first_cancelled = cancelled (record { token = 0; tick = 2 }) (some 77) now refl (λ h. cc)

poll_to-delivers_example :
    (enough : ℕ) × (x : ℕ) × (t' : Timer ℕ) × ((fuel : ℕ)
      → enough ≤ fuel
      → poll_to fuel 9 without_first ≡ ok (some x, t'))
    × (((x ≡ 88) × (t'.entries 1 ≡ none)) ⊎ (t'.entries 1 ≢ none))
unfolding new insert schedule_readiness slot_for
poll_to-delivers_example =
    poll_to-delivers 1 88 6 with_one with_two without_first (record { token = 1; tick = 6 }) 9
      with_one-Reached refl (omega arith) (omega arith) refl first_cancelled (omega arith)
