-- ===== src/Poll/Lock/Defs.antt =====
-- `Poll::poll1` of src/poll.rs: several threads poll, and one at a time goes on to `poll2`. `lock_state`
-- has the bit 1 while a thread is in `poll2`, and 2 for each thread that waits. One step is one atomic
-- operation of one thread; what a thread does without shared state, and the release of the mutex that
-- ends its block, belong to the step before. `condvar.wait` may return at any time, after any while.
use sickle.Base.{
  ℕ, ◌+◌, ◌-◌, ◌<◌, ◌≡◌, ◌≢◌, Bool, true, false, Option, none, some, ◌==◌, leb, ltb, if◌then◌else◌,
  update,
}
use sickle.Bits.{bit_and, bit_or, bit_not, word}

-- Where a thread stands: `lock curr` wants the mutex after its first exchange failed with `curr`,
-- `check curr inc` is at the head of the loop, `wait` is about to wait on the condition variable,
-- `asleep` waits on it, `woken` wants the mutex back, `load` is about to read the word, `critical` is in
-- `poll2`, and `notify` and `notifying` are at its end, without and with the mutex.
pub data Pc : Type 0 where
  idle : Pc
  lock : (curr : ℕ) → Pc
  check : (curr : ℕ) → (inc : Bool) → Pc
  wait : Pc
  asleep : Pc
  woken : Pc
  load : Pc
  critical : Pc
  notify : Pc
  notifying : Pc

-- `timeout` is in nanoseconds.
pub record Poller : Type 0 where
  pub pc : Pc
  pub timeout : Option ℕ

-- `mutex` is the thread that holds it.
pub record Shared : Type 0 where
  pub lock_state : ℕ
  pub mutex : Option ℕ

abbrev pub is_zero : Option ℕ → Bool
is_zero none = false
is_zero (some to) = to == 0

-- The exchange of 0 by 1 at the start.
unfoldable pub first_try : ℕ → ℕ × Pc
first_try state = if state == 0 then (1, critical) else (state, lock state)

-- The body of the loop up to the next atomic operation on the word or the condition variable: the word,
-- where the thread stands then, and whether it still has the mutex; `none` is the overflow of
-- `checked_add`.
unfoldable pub round : (state curr : ℕ) → (inc zero_timeout : Bool) → Option (ℕ × Pc × Bool)
round state curr inc zero_timeout =
    if bit_and curr 1 == 0
    then (if state == curr
        then some (if inc then bit_or curr 1 - 2 else bit_or curr 1, critical, false)
        else some (state, check state inc, true))
    else if zero_timeout
    then some (if inc then state - 2 else state, idle, false)
    else if inc
    then some (state, wait, true)
    else if ltb (curr + 2) word
    then (if state == curr
        then some (curr + 2, wait, true)
        else some (state, check state false, true))
    else none

-- What is left of the timeout after `elapsed`.
unfoldable pub remaining : Option ℕ → (elapsed : ℕ) → Option ℕ
remaining none elapsed = none
remaining (some to) elapsed = if leb to elapsed then some 0 else some (to - elapsed)

-- The `fetch_and` at the end.
unfoldable pub release : ℕ → ℕ × Pc
release state = (bit_and state (bit_not 1), if state == 1 then idle else notify)

abbrev pub mutex_after : Bool → ℕ → Option ℕ
mutex_after keeps i = if keeps then some i else none

-- Thread `i` goes from `p` to `p'`.
pub data Move (i : ℕ) (m : Shared) (p : Poller) (m' : Shared) (p' : Poller) : Type 0 where
  enter :
      (timeout : Option ℕ)
      → p.pc ≡ idle
      → m' ≡ record m { lock_state = (first_try m.lock_state).0 }
      → p' ≡ record { pc = (first_try m.lock_state).1; timeout = timeout }
      → Move i m p m' p'
  locked :
      (curr : ℕ)
      → p.pc ≡ lock curr
      → m.mutex ≡ none
      → m' ≡ record m { mutex = some i }
      → p' ≡ record p { pc = check curr false }
      → Move i m p m' p'
  looped :
      (curr state : ℕ) (inc keeps : Bool) (pc : Pc)
      → p.pc ≡ check curr inc
      → round m.lock_state curr inc (is_zero p.timeout) ≡ some (state, pc, keeps)
      → m' ≡ record { lock_state = state; mutex = mutex_after keeps i }
      → p' ≡ record p { pc = pc }
      → Move i m p m' p'
  waits :
      p.pc ≡ wait
      → m' ≡ record m { mutex = none }
      → p' ≡ record p { pc = asleep }
      → Move i m p m' p'
  wakes :
      (elapsed : ℕ)
      → p.pc ≡ asleep
      → m' ≡ m
      → p' ≡ record { pc = woken; timeout = remaining p.timeout elapsed }
      → Move i m p m' p'
  relocked :
      p.pc ≡ woken
      → m.mutex ≡ none
      → m' ≡ record m { mutex = some i }
      → p' ≡ record p { pc = load }
      → Move i m p m' p'
  loaded : p.pc ≡ load → m' ≡ m → p' ≡ record p { pc = check m.lock_state true } → Move i m p m' p'
  released :
      p.pc ≡ critical
      → m' ≡ record m { lock_state = (release m.lock_state).0 }
      → p' ≡ record p { pc = (release m.lock_state).1 }
      → Move i m p m' p'
  locked_to_notify :
      p.pc ≡ notify
      → m.mutex ≡ none
      → m' ≡ record m { mutex = some i }
      → p' ≡ record p { pc = notifying }
      → Move i m p m' p'

-- `n` threads share the lock.
pub record System : Type 0 where
  pub shared : Shared
  pub pollers : ℕ → Poller

-- `notify_one` wakes one of the threads that wait on the condition variable, if there is any.
pub data Step (n : ℕ) (s : System) : System → Type 0 where
  move :
      (i : ℕ) {m : Shared} {p : Poller}
      → i < n
      → Move i s.shared (s.pollers i) m p
      → Step n s (record { shared = m; pollers = update s.pollers i p })
  notified :
      (i j elapsed : ℕ)
      → i < n
      → j < n
      → (s.pollers i).pc ≡ notifying
      → (s.pollers j).pc ≡ asleep
      → Step n s (record {
        shared = record s.shared { mutex = none };
        pollers =
            update
              (update s.pollers j
                (record { pc = woken; timeout = remaining (s.pollers j).timeout elapsed }))
              i
              (record (s.pollers i) { pc = idle });
      })
  notified_none :
      (i : ℕ)
      → i < n
      → (s.pollers i).pc ≡ notifying
      → ((j : ℕ) → j < n → (s.pollers j).pc ≢ asleep)
      → Step n s (record {
        shared = record s.shared { mutex = none };
        pollers = update s.pollers i (record (s.pollers i) { pc = idle });
      })

abbrev pub init : System
init = record {
  shared = record { lock_state = 0; mutex = none };
  pollers = λ _. record { pc = idle; timeout = none };
}

pub data Reach (n : ℕ) : System → Type 0 where
  start : Reach n init
  later : {s t : System} → Reach n s → Step n s t → Reach n t
