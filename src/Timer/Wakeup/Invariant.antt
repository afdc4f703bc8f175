-- ===== src/Timer/Wakeup/Invariant.antt =====
-- What holds of the alarm in every reachable state.
use sickle.Base.{
  ℕ, update, ◌==◌, Bool-cases, refl, inl, inr, ◌≤◌, ◌<◌, ◌≡◌, Bool, true, false, arith, ◌⊎◌,
}
use sickle.Timer.Defs.{Tick, tick_max}
use sickle.Timer.Wakeup.Defs.{
  Pc, look, parked, reload, exchange, signal, stopped, Caller, away, trying, unparking, Alarm,
  look_at, exchanged, tested, tried, Step, time_passes, looks, unparks, reloads, exchanges, signals,
  calls, tries, unparked, clears, drops, spawned, Reach, start, later,
}

-- The tick that the thread believes in.
abbrev pub believes : Pc → Tick
believes (look u) = u
believes (parked u) = u
believes reload = 0
believes (exchange u) = u
believes (signal u) = tick_max
believes stopped = 0

abbrev pub is_signal : Pc → Bool
is_signal (look u) = false
is_signal (parked u) = false
is_signal reload = false
is_signal (exchange u) = false
is_signal (signal u) = true
is_signal stopped = false

-- The tick that is about to be signalled.
abbrev pub signalled : Pc → Tick
signalled (look u) = 0
signalled (parked u) = 0
signalled reload = 0
signalled (exchange u) = u
signalled (signal u) = u
signalled stopped = 0

abbrev pub is_unparking : Caller → Bool
is_unparking away = false
is_unparking (trying tick curr) = false
is_unparking (unparking tick) = true

-- Some thread is about to unpark.
abbrev pub Unparks : (ℕ → Caller) → Type 0
Unparks callers = (i : ℕ) × (is_unparking (callers i) ≡ true)

pub record Inv (a : Alarm) : Type 0 where
  pub in_range : a.wakeup_state ≤ tick_max
  pub kept : (is_signal a.thread ≡ true) ⊎ (a.wakeup_state ≤ a.wanted)
  pub called :
      (i : ℕ) (tick curr : Tick)
      → a.callers i ≡ trying tick curr
      → (tick ≤ tick_max) × (tick < curr)
  pub fresh : ((believes a.thread ≤ a.wakeup_state) ⊎ (a.token ≡ true)) ⊎ Unparks a.callers
  pub due : signalled a.thread ≤ a.now

-- A thread that is not about to unpark makes a step.
Unparks-update :
    (callers : ℕ → Caller) (i : ℕ) (c : Caller)
    → is_unparking (callers i) ≡ false
    → Unparks callers
    → Unparks (update callers i c)
Unparks-update callers i c idle (k, h) = elim (Bool-cases (k == i)) [
  | inl same ↦ absurd (ground arith)
  | inr other ↦ (k, ground arith)
]

-- What is known of the threads in `schedule_readiness`, after one of them has made a step.
called-update :
    (a : Alarm) (i : ℕ) (c : Caller)
    → Inv a
    → ((tick curr : Tick) → c ≡ trying tick curr → (tick ≤ tick_max) × (tick < curr))
    → (k : ℕ) (tick curr : Tick) → update a.callers i c k ≡ trying tick curr
    → (tick ≤ tick_max) × (tick < curr)
called-update a i c v here k tick curr h = elim (Bool-cases (k == i)) [
  | inl same ↦ here tick curr (ground arith)
  | inr other ↦ v.called k tick curr (ground arith)
]

tested-trying :
    (tick state t c : Tick)
    → tick ≤ tick_max
    → tested tick state ≡ trying t c
    → (t ≤ tick_max) × (t < c)
unfolding tested
tested-trying tick state t c h e = ground arith

tried-trying :
    (tick curr state t c : Tick)
    → tick ≤ tick_max
    → (tried tick curr state).1 ≡ trying t c
    → (t ≤ tick_max) × (t < c)
unfolding tried tested
tried-trying tick curr state t c h e = ground arith

-- A call has left the word, or has lowered it and is about to unpark.
tried-cases :
    (tick curr state : Tick)
    → tick < curr
    → ((tried tick curr state).0 ≡ state) ⊎ ((tried tick curr state).1 ≡ unparking tick)
unfolding tried
tried-cases tick curr state h = ground arith

pub Step-Inv : {a b : Alarm} → Step a b → Inv a → Inv b
unfolding look_at exchanged tried tested
Step-Inv (time_passes now h) v = ground arith
Step-Inv (looks until at) v = ground arith
Step-Inv (unparks until at) v = ground arith
Step-Inv (reloads at) v = ground arith
Step-Inv (exchanges until at) v = ground arith
Step-Inv (signals until at) v = ground arith
Step-Inv {a} (calls i tick h at) v = record {
  in_range = v.in_range;
  kept = ground arith;
  called =
      called-update a i (tested tick a.wakeup_state) v
        (λ t c. tested-trying tick a.wakeup_state t c h);
  fresh = elim v.fresh [
    | inl f ↦ inl f
    | inr u ↦ inr (Unparks-update a.callers i (tested tick a.wakeup_state) (ground arith) u)
  ];
  due = v.due;
}
Step-Inv {a} (tries i tick curr at) v =
    let (small, less) = v.called i tick curr at in
    let next = (tried tick curr a.wakeup_state).1 in
    record {
      in_range = ground arith;
      kept = ground arith;
      called = called-update a i next v (λ t c. tried-trying tick curr a.wakeup_state t c small);
      fresh = elim (tried-cases tick curr a.wakeup_state less) [
        | inr up ↦ inr (i, ground (arith, up))
        | inl same ↦ elim v.fresh [
          | inl (inl f) ↦ inl (inl (rw same f))
          | inl (inr f) ↦ inl (inr f)
          | inr u ↦ inr (Unparks-update a.callers i next (ground arith) u)
        ]
      ];
      due = v.due;
    }
Step-Inv {a} (unparked i tick at) v = record {
  in_range = v.in_range;
  kept = v.kept;
  called = called-update a i away v (λ t c e. absurd (ground arith));
  fresh = inl (inr refl);
  due = v.due;
}
Step-Inv clears v = ground arith
Step-Inv {a} (drops i at) v = record {
  in_range = omega arith;
  kept = inr (omega arith);
  called = called-update a i (unparking 0) v (λ t c e. absurd (ground arith));
  fresh = inr (i, ground arith);
  due = v.due;
}

spawned-Inv : (now : Tick) → Inv (spawned now)
spawned-Inv now = ground arith

pub Reach-Inv : {now : Tick} {a : Alarm} → Reach now a → Inv a
Reach-Inv {now} start = spawned-Inv now
Reach-Inv (later r st) = Step-Inv st (Reach-Inv r)
