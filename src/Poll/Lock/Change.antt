-- ===== src/Poll/Lock/Change.antt =====
-- What one step of one thread does to the lock: to its word, to the mutex, and to those who rely on
-- being woken.
use sickle.Base.{
  ℕ, ◌+◌, ◌*◌, ◌/◌, ◌%◌, ◌^◌, ◌<◌, ◌≤◌, ◌≡◌, ◌≢◌, refl, Bool, true, false, not, some, ◌==◌, arith,
  ◌⊎◌,
}
use sickle.Bits.{bit_and, bit_not, bit_and_mask, bit_or-one, clear_field}
use sickle.Poll.Lock.Defs.{
  Pc, idle, lock, check, wait, asleep, woken, load, critical, notify, notifying, Poller, Shared,
  first_try, round, release, Move, enter, locked, looped, waits, wakes, relocked, loaded, released,
  locked_to_notify,
}

-- 1 for the thread in `poll2`.
abbrev pub held : Pc → ℕ
held idle = 0
held (lock curr) = 0
held (check curr inc) = 0
held wait = 0
held asleep = 0
held woken = 0
held load = 0
held critical = 1
held notify = 0
held notifying = 0

-- 1 for a thread that the word counts as waiting.
abbrev pub queued : Pc → ℕ
queued idle = 0
queued (lock curr) = 0
queued (check curr true) = 1
queued (check curr false) = 0
queued wait = 1
queued asleep = 1
queued woken = 1
queued load = 1
queued critical = 0
queued notify = 0
queued notifying = 0

abbrev pub owns : Pc → Bool
owns idle = false
owns (lock curr) = false
owns (check curr inc) = true
owns wait = true
owns asleep = false
owns woken = false
owns load = true
owns critical = false
owns notify = false
owns notifying = true

abbrev pub is_even : ℕ → Bool
is_even n = n % 2 == 0

-- A thread that waits, or is about to wait as it has seen the lock taken: it needs another to wake it.
abbrev pub relies : Pc → Bool
relies idle = false
relies (lock curr) = false
relies (check curr true) = not (is_even curr)
relies (check curr false) = false
relies wait = true
relies asleep = true
relies woken = false
relies load = false
relies critical = false
relies notify = false
relies notifying = false

-- A thread that will look at the word again, or is about to wake another.
abbrev pub helps : Pc → Bool
helps idle = false
helps (lock curr) = false
helps (check curr true) = is_even curr
helps (check curr false) = false
helps wait = false
helps asleep = false
helps woken = true
helps load = true
helps critical = false
helps notify = true
helps notifying = true

-- What the thread remembers of the word.
abbrev pub seen : Pc → ℕ
seen idle = 0
seen (lock curr) = curr
seen (check curr inc) = curr
seen wait = 0
seen asleep = 0
seen woken = 0
seen load = 0
seen critical = 0
seen notify = 0
seen notifying = 0

pub record Change (i : ℕ) (m : Shared) (p : Pc) (m' : Shared) (p' : Pc) : Type 0 where
  pub counted : m'.lock_state + held p + 2 * queued p ≡ m.lock_state + held p' + 2 * queued p'
  pub entered : (held p' ≤ held p) ⊎ (m.lock_state % 2 ≡ 0)
  pub owner : owns p' ≡ true → m'.mutex ≡ some i
  pub others : (k : ℕ) → k ≢ i → m.mutex ≡ some k → m'.mutex ≡ some k
  pub remembers : (seen p' ≤ seen p) ⊎ (seen p' ≡ m.lock_state)

-- What it does to those who rely on another and to those who help.
pub record Handover (m : Shared) (p : Pc) (m' : Shared) (p' : Pc) : Type 0 where
  pub reliance :
      relies p' ≡ true → m'.lock_state % 2 ≡ 0 → (relies p ≡ true) × (m.lock_state % 2 ≡ 0)
  pub helping : helps p ≡ true → m.lock_state % 2 ≡ 0 → m'.lock_state % 2 ≡ 0 → helps p' ≡ true
  pub leaving :
      m.lock_state % 2 ≡ 1
      → m'.lock_state % 2 ≡ 0
      → (helps p' ≡ true) ⊎ ((m.lock_state ≡ 1) × (relies p' ≡ false))

release_even : (state : ℕ) → state < 2 ^ 64 → bit_and state (bit_not 1) ≡ state / 2 * 2
release_even state fits = omega (arith, clear_field 0 1 63 state (bit_not 1) refl refl refl)

-- Where the word counts the thread, and its mutex is its own.
pub Move-Handover :
    {i : ℕ} {m m' : Shared} {p p' : Poller}
    → m.lock_state < 2 ^ 64
    → held p.pc + 2 * queued p.pc ≤ m.lock_state
    → ((held p.pc ≡ 1) → m.lock_state % 2 ≡ 1)
    → (owns p.pc ≡ true → m.mutex ≡ some i)
    → Move i m p m' p'
    → Change i m p.pc m' p'.pc × Handover m p.pc m' p'.pc
unfolding first_try release round
Move-Handover fits enough odd mine (enter to at e f) = ground arith
Move-Handover fits enough odd mine (locked curr at free e f) = ground arith
Move-Handover fits enough odd mine (looped curr state inc keeps pc at done e f) =
    ground (arith, bit_and_mask 1 curr, bit_or-one curr)
Move-Handover fits enough odd mine (waits at e f) = ground arith
Move-Handover fits enough odd mine (wakes elapsed at e f) = ground arith
Move-Handover fits enough odd mine (relocked at free e f) = ground arith
Move-Handover fits enough odd mine (loaded at e f) = ground arith
Move-Handover {m} fits enough odd mine (released at e f) =
    ground (arith, release_even m.lock_state fits)
Move-Handover fits enough odd mine (locked_to_notify at free e f) = ground arith
