-- ===== src/Timer/Wakeup/Safety.antt =====
-- What the wakeup thread of src/timer.rs does with the ticks that are scheduled.
use sickle.Base.{ℕ, update, ◌≤◌, ◌<◌, ◌≡◌, true, false, arith, inl, inr, ◌⊎◌, refl, subst}
use sickle.Timer.Defs.{Tick}
use sickle.Timer.Wakeup.Defs.{
  Pc, look, parked, reload, exchange, signal, stopped, Caller, away, trying, unparking, Alarm,
  look_at, tested, tried, Step, time_passes, looks, unparks, reloads, exchanges, signals, calls,
  tries, unparked, clears, drops, Reach, Steps, start, later,
}
use sickle.Timer.Wakeup.Invariant.{Reach-Inv, is_unparking, is_signal}

is_signal_cases :
    (pc : Pc) (a : Alarm)
    → (is_signal pc ≡ true) ⊎ (a.wakeup_state ≤ a.wanted)
    → ((u : Tick) × (pc ≡ signal u)) ⊎ (a.wakeup_state ≤ a.wanted)
is_signal_cases (signal u) a h = inl (u, refl)
is_signal_cases (look u) a h = inr (ground arith)
is_signal_cases (parked u) a h = inr (ground arith)
is_signal_cases reload a h = inr (ground arith)
is_signal_cases (exchange u) a h = inr (ground arith)
is_signal_cases stopped a h = inr (ground arith)

unparking_of : (c : Caller) → is_unparking c ≡ true → (tick : Tick) × (c ≡ unparking tick)
unparking_of (unparking tick) h = (tick, refl)
unparking_of away h = absurd (ground arith)
unparking_of (trying tick curr) h = absurd (ground arith)

-- No scheduled tick is forgotten, however the steps of the wakeup thread and of any number of threads
-- that schedule or drop the timer interleave: in every reachable state, the shared word is at most the
-- least tick for which a `schedule_readiness` has done its last operation on the word since the
-- readiness was last set, unless the wakeup thread is just about to set it; and if that thread sleeps
-- until a later tick than the word says, it has an unpark token, or some thread is about to unpark it.
pub wanted-le :
    {now : Tick} {a : Alarm}
    → Reach now a
    → (((u : Tick) × (a.thread ≡ signal u)) ⊎ (a.wakeup_state ≤ a.wanted))
      × ((u : Tick)
          → a.thread ≡ parked u
          → a.wakeup_state < u
          → (a.token ≡ true) ⊎ ((i : ℕ) × (tick : Tick) × (a.callers i ≡ unparking tick)))
wanted-le {a} r =
    let v = Reach-Inv r in
    (
      is_signal_cases a.thread a v.kept,
      λ u at lower. elim v.fresh [
        | inl (inl low) ↦ absurd (ground arith)
        | inl (inr token) ↦ inl token
        | inr (i, up) ↦
            (let (tick, at_unpark) = unparking_of (a.callers i) up in inr (i, tick, at_unpark))
      ],
    )

-- The readiness is never set early: the thread that is about to set it has seen the clock at the tick
-- that it took from the word, or later.
pub signal-le : {now u : Tick} {a : Alarm} → Reach now a → a.thread ≡ signal u → u ≤ a.now
signal-le r at = let v = Reach-Inv r in ground arith

-- A thread that has stopped never sets the readiness again.
Step-stopped : {a b : Alarm} → Step a b → a.thread ≡ stopped → b.thread ≡ stopped
Step-stopped (time_passes now h) at = at
Step-stopped (looks until at') at = cc
Step-stopped (unparks until at') at = cc
Step-stopped (reloads at') at = cc
Step-stopped (exchanges until at') at = cc
Step-stopped (signals until at') at = cc
Step-stopped (calls i tick h at') at = at
Step-stopped (tries i tick curr at') at = at
Step-stopped (unparked i tick at') at = at
Step-stopped clears at = at
Step-stopped (drops i at') at = at

pub Steps-stopped : {a b : Alarm} → Steps a b → a.thread ≡ stopped → b.thread ≡ stopped
Steps-stopped start at = at
Steps-stopped (later r st) at = Step-stopped st (Steps-stopped r at)

from_eq : {a b c : Alarm} → Step a b → b ≡ c → Step a c
from_eq {a} st e = subst (Step a) e st

-- Scheduling tick 0 ends the wakeup thread, as the word 0 means termination: from every reachable
-- state of a timer that was not dropped, in which the thread sleeps, the word is not 0 and some
-- thread does not schedule, there are steps that lead to a state of a timer that is still not dropped,
-- in which tick 0 was scheduled and the wakeup thread has returned, although the readiness has not
-- been set; and whatever steps follow, the thread has returned for good.
pub stops-schedule_zero :
    {now u : Tick} {a : Alarm} (i : ℕ)
    → Reach now a
    → a.dropped ≡ false
    → a.thread ≡ parked u
    → a.callers i ≡ away
    → 0 < a.wakeup_state
    → (b : Alarm) × Steps a b
      × (b.dropped ≡ false)
      × (b.wanted ≡ 0)
      × (b.thread ≡ stopped)
      × (b.ready ≡ a.ready)
      × ((c : Alarm) → Steps b c → c.thread ≡ stopped)
unfolding look_at tried tested
stops-schedule_zero {u} {a} i r alive at free pos =
    let b1 : Alarm = record a { callers = update a.callers i (trying 0 a.wakeup_state) } in
    let b2 : Alarm = record b1 {
      wakeup_state = 0;
      callers = update b1.callers i (unparking 0);
      wanted = 0;
    } in
    let b3 : Alarm = record b2 { token = true; callers = update b2.callers i away } in
    let b4 : Alarm = record b3 { thread = reload; token = false } in
    let b5 : Alarm = record b4 { thread = look 0 } in
    let called : Step a b1 = from_eq (calls i 0 (omega arith) free) (ground arith) in
    let swapped : Step b1 b2 = from_eq (tries i 0 a.wakeup_state (ground arith)) (ground arith) in
    let woken : Step b2 b3 = unparked i 0 (ground arith) in
    let awake : Step b3 b4 = unparks u at in
    let reread : Step b4 b5 = reloads refl in
    (
      record b5 { thread = stopped },
      later (later (later (later (later (later start called) swapped) woken) awake) reread)
          (looks 0 refl),
      alive,
      refl,
      refl,
      refl,
      λ c st. Steps-stopped st refl,
    )
