-- ===== src/Connector/Tests.antt =====
-- Runs of a connector whose timeout is set.
use sickle.Base.{
  ℕ, ◌≡◌, refl, true, false, none, some, [], ◌∷◌, ok, After, update, arith, if◌then◌else◌, ◌==◌,
}
use sickle.Ready
use sickle.Ready.{Ready}
use sickle.Event.{Job}
use sickle.Timer.{Timer, Timeout, new, new_entry, empty, insert, slot_for, schedule_readiness}
use sickle.Timer.Slots.Wheel.{IsOrdered}
use sickle.Timer.Slots.Cancel.{timeouts}
use sickle.Timer.Slots.Reached.{Reached, fresh, inserts, Reached-IsOrdered}
use sickle.EventLoop.{EventLoop}
use sickle.Connector.Defs.{conn_job, own_loop, Connector, handle_event}
use sickle.Connector.Laws.{handed, run_events, run_events-handed, handle_event-connects}

abbrev clear : Timer Job
clear = new 100 4 16

abbrev waiting : Timer Job
waiting = record clear {
  entries = update (λ _. none) 0 (some (new_entry 5 2 empty));
  wheel = update clear.wheel 2 (record { next_tick = 2; head = 0 });
}

waiting-Reached : Reached waiting
unfolding new insert schedule_readiness slot_for
waiting-Reached =
    inserts 0 2 5 (record { token = 0; tick = 2 }) (fresh 100 4 16) refl (omega arith) refl

abbrev loop : EventLoop
loop = record {
  run = true;
  timer = waiting;
  calls = [];
  polls = 0;
  clock = λ _. record { as_secs = 0; subsec_nanos = 0 };
  stops = λ _. false;
  adjusts = λ _ t. t;
}

abbrev timeout : Timeout
timeout = record { token = 0; tick = 2 }

abbrev connecting : Connector
connecting = record {
  timer = some timeout;
  tcp_stream = some 7;
  event_loop = loop;
  current = own_loop;
  on_conn_job = 4;
  on_timeout = 5;
  calls = [];
}

handle_event-connects_example :
    (c' : Connector) × (handle_event false connecting Ready.writable ≡ ok c')
    × (c'.tcp_stream ≡ none)
    × (c'.calls ≡ conn_job 4 7 ∷ [])
    × IsOrdered c'.event_loop.timer
    × ((k : ℕ) → timeouts c'.event_loop.timer k ≡ (if k == 0 then none else timeouts waiting k))
unfolding Ready.is_writable
handle_event-connects_example =
    handle_event-connects false connecting Ready.writable 7 timeout refl refl refl
      (Reached-IsOrdered waiting-Reached) refl

run_events-handed_example :
    After
      (λ c'. handed c' ≡ handed connecting)
      (run_events connecting ((true, Ready.readable) ∷ (false, Ready.writable) ∷ []))
run_events-handed_example =
    run_events-handed connecting ((true, Ready.readable) ∷ (false, Ready.writable) ∷ [])
