-- ===== src/Timer/Tests.antt =====
-- Runs of the timer on small wheels.
use sickle.Base.{
  ℕ, ◌≡◌, refl, Option, none, some, Outcome, ok, ◌>>=◌, After, update, arith, success, failure,
  ErrorKind, true, false,
}
use sickle.Timer.Defs.{tick_max, Timer, new, new_entry, empty}
use sickle.Timer.Ops.{slot_for, schedule_readiness, insert}
use sickle.Timer.Poll.{poll_to}
use sickle.Timer.Laws.{PollKeeps, poll_to-Fires}
use sickle.Timer.Late.{IsWaiting, insert-late}
use sickle.Timer.Register.{register, register-IsOrdered}
use sickle.Timer.Slots.Wheel.{IsOrdered}
use sickle.Timer.Slots.Reached.{fresh, Reached-IsOrdered}
use sickle.Event.{TokenType, TokenEntry}
use sickle.Ready
use sickle.Ready.{Ready}
use sickle.PollOpt
use sickle.PollOpt.{PollOpt}
use sickle.ReadinessState.{token_read_pos, fields}
use sickle.Queue
use sickle.Queue.{Ptr, Queue, Node, token, load}

abbrev timer_entry : TokenEntry
timer_entry = record { ttype = TokenType.timers_event; token = record { id = 0 } }

abbrev wheel : Timer ℕ
wheel = new 100 4 16

two_timeouts : Outcome (Option ℕ × Option ℕ × Option ℕ)
unfolding new insert slot_for schedule_readiness poll_to
two_timeouts = do
  (_, a) ← insert wheel 0 2 77
  (_, b) ← insert a 1 6 88
  (x, c) ← poll_to 50 3 b
  (y, d) ← poll_to 50 5 c
  (z, e) ← poll_to 50 6 d
  ok (x, y, z)

two_timeouts_run : two_timeouts ≡ ok (some 77, none, some 88)
unfolding two_timeouts
two_timeouts_run = refl

-- A timer with two entries in different slots, as `two_timeouts` makes it.
abbrev loaded : Timer ℕ
loaded = record wheel {
  entries =
      update (update (λ _. none) 0 (some (new_entry 77 2 empty))) 1 (some (new_entry 88 6 empty));
}

poll_to-Fires_example : After (PollKeeps loaded.entries 3) (poll_to 50 3 loaded)
unfolding new
poll_to-Fires_example = poll_to-Fires 50 3 loaded

-- A timer like that of an event loop, which shares a word with its wakeup thread.
abbrev event_loop_wheel : Timer ℕ
event_loop_wheel = record (new 100 1_024 16) {
  inner = some (record { wakeup_state = tick_max; unparks = 0; readiness = 0 });
}

event_loop_wheel-IsWaiting : IsWaiting 0 event_loop_wheel
unfolding new
event_loop_wheel-IsWaiting = record { between = refl; slots = refl; others_empty = λ s ne. refl }

insert-late_example :
    (t1 : Timer ℕ) × (t2 : Timer ℕ) × (insert event_loop_wheel 3 0 77
      ≡ ok (record { token = 3; tick = 0 }, t1))
    × (poll_to 30 20 t1 ≡ ok (none, t2))
    × (t2.entries 3 ≡ some (new_entry 77 0 empty))
unfolding new
insert-late_example =
    insert-late 30 event_loop_wheel 3 77 20 event_loop_wheel-IsWaiting refl (omega arith)
      (omega arith) (omega arith)

register-IsOrdered_example :
    (q' : Queue) × (t' : Timer ℕ) × (n : Node) × (register Queue.new wheel 16 1 timer_entry
        Ready.readable PollOpt.edge true
      ≡ ok (success (q', t')))
    × IsOrdered t'
    × (t'.entries ≡ wheel.entries)
    × (load q' 16 ≡ ok n)
    × (n.ref_count ≡ 4)
    × (n.readiness_queue ≡ 1)
    × (token n (token_read_pos n.state) ≡ ok timer_entry)
    × (fields n.state ≡ record {
      readiness = 0;
      interest = 1;
      poll_opt = 1;
      read_pos = 0;
      write_pos = 0;
      queued = false;
      dropped = false;
    })
    × ((other : Ptr) (entry' : TokenEntry) (interest' : Ready) (opts' : PollOpt)
        → register q' t' other 1 entry' interest' opts' true ≡ ok (failure ErrorKind.other))
unfolding new
register-IsOrdered_example =
    register-IsOrdered Queue.new wheel 16 1 timer_entry Ready.readable PollOpt.edge
      (Reached-IsOrdered (fresh 100 4 16)) refl (omega arith) (omega arith)
