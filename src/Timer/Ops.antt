-- ===== src/Timer/Ops.antt =====
-- The operations of `Timer` in src/timer.rs. Indexing the slab at a missing key is a panic. The key
-- that the slab gives to a new entry is an argument, as is the time that `elapsed` reads.
use sickle.Base.{
  ℕ, ◌+◌, ◌-◌, ◌*◌, ◌/◌, Bool, true, false, Option, none, some, List, [], ◌∷◌, ◌==◌, ltb, leb, min,
  if◌then◌else◌, Outcome, ok, panic, ◌>>=◌, unwrap, update,
}
use sickle.Bits.{bit_and, word}
use sickle.Duration.{Duration, saturating_add, millis}
use sickle.Timer.Defs.{Tick, empty, Timeout, EntryLinks, new_entry, Timer}

-- A division by 0 panics.
unfoldable pub duration_to_tick : Duration → ℕ → Outcome Tick
duration_to_tick elapsed tick_ms =
    if tick_ms == 0 then panic else ok (saturating_add (millis elapsed) (tick_ms / 2) / tick_ms)

-- `Duration + Duration`, which panics when the seconds do not fit.
unfoldable pub add_duration : Duration → Duration → Outcome Duration
add_duration a b =
    let sum = a.subsec_nanos + b.subsec_nanos in
    let carry = if ltb sum 1_000_000_000 then 0 else 1 in
    let secs = a.as_secs + b.as_secs + carry in
    if ltb secs word
    then ok (record { as_secs = secs; subsec_nanos = sum - 1_000_000_000 * carry })
    else panic

-- The loop of `schedule_readiness` against the shared word. Each failing compare-exchange shows a
-- value that another thread has put there in the meantime; `fails` lists them. The result is the
-- word, and whether the thread was unparked.
unfoldable pub schedule_loop : ℕ → Tick → (fails : List ℕ) → ℕ × Bool
schedule_loop curr tick [] = if leb curr tick then (curr, false) else (tick, true)
schedule_loop curr tick (v ∷ fails) =
    let again = schedule_loop v tick fails in if leb curr tick then (curr, false) else again

module _ {T : Type 0} where
  unfoldable pub slot_for : Timer T → Tick → ℕ
  slot_for t tick = bit_and t.mask tick

  abbrev pub set_head : Timer T → ℕ → ℕ → Timer T
  set_head t slot head = record t {
    wheel = update t.wheel slot (record (t.wheel slot) { head = head });
  }

  abbrev pub set_next_tick : Timer T → ℕ → Tick → Timer T
  set_next_tick t slot tick = record t {
    wheel = update t.wheel slot (record (t.wheel slot) { next_tick = tick });
  }

  -- `self.entries[key].links = …`
  unfoldable pub set_links : Timer T → ℕ → (EntryLinks → EntryLinks) → Outcome (Timer T)
  set_links t key f = do
    e ← unwrap (t.entries key)
    ok (record t { entries = update t.entries key (some (record e { links = f e.links })) })

  -- `schedule_readiness` when no other thread writes the word meanwhile.
  unfoldable pub schedule_readiness : Timer T → Tick → Timer T
  unfolding schedule_loop
  schedule_readiness t tick = elim t.inner [
    | none ↦ t
    | some inner ↦
        let (word, woken) = schedule_loop inner.wakeup_state tick [] in
        record t {
          inner = some (record inner {
            wakeup_state = word;
            unparks = if woken then inner.unparks + 1 else inner.unparks;
          });
        }
  ]

  -- The part of `insert` behind the choice of the key.
  unfoldable pub insert : Timer T → (key : ℕ) → Tick → T → Outcome (Timeout × Timer T)
  unfolding set_links
  insert t key tick state =
      let slot = slot_for t tick in
      let curr = t.wheel slot in
      let t1 : Timer T = record t {
        entries = update t.entries key (some (new_entry state tick curr.head));
      } in
      do
        t2 ←
            if curr.head == empty
            then ok t1
            else set_links t1 curr.head (λ l. record l { prev = key })
        let t3 = record t2 {
          wheel = update t2.wheel slot (record { next_tick = min tick curr.next_tick; head = key });
        }
        ok (record { token = key; tick = tick }, schedule_readiness t3 tick)

  unfoldable pub set_timeout_at : Timer T → (key : ℕ) → Duration → T → Outcome (Timeout × Timer T)
  unfolding insert slot_for schedule_readiness duration_to_tick
  set_timeout_at t key delay_from_start state = do
    tick ← duration_to_tick delay_from_start t.tick_ms
    insert t key (if ltb tick t.tick then t.tick + 1 else tick) state

  unfoldable pub set_timeout :
      Timer T → (key : ℕ) → (elapsed delay_from_now : Duration) → T → Outcome (Timeout × Timer T)
  unfolding set_timeout_at add_duration
  set_timeout t key elapsed delay_from_now state = do
    delay_from_start ← add_duration elapsed delay_from_now
    set_timeout_at t key delay_from_start state

  unfoldable pub unlink : Timer T → EntryLinks → ℕ → Outcome (Timer T)
  unfolding slot_for set_links
  unlink t links token = do
    t1 ←
        if links.prev == empty
        then ok (set_head t (slot_for t links.tick) links.next)
        else set_links t links.prev (λ l. record l { next = links.next })
    if links.next == empty
        then ok (if token == t1.next then record t1 { next = empty } else t1)
        else (do
          t2 ← set_links t1 links.next (λ l. record l { prev = links.prev })
          ok (if token == t2.next then record t2 { next = links.next } else t2))

  -- `self.entries.remove(key).state`
  unfoldable pub remove : Timer T → ℕ → Outcome (T × Timer T)
  remove t key = do
    e ← unwrap (t.entries key)
    ok (e.state, record t { entries = update t.entries key none })

  unfoldable pub unlink_and_remove : Timer T → EntryLinks → ℕ → Outcome (Option T × Timer T)
  unfolding unlink remove
  unlink_and_remove t links token = do
    t1 ← unlink t links token
    (state, t2) ← remove t1 token
    ok (some state, t2)

  unfoldable pub cancel_timeout : Timer T → Timeout → Outcome (Option T × Timer T)
  unfolding unlink_and_remove
  cancel_timeout t timeout = elim (t.entries timeout.token) [
    | none ↦ ok (none, t)
    | some e ↦
        if e.links.tick == timeout.tick
        then unlink_and_remove t e.links timeout.token
        else ok (none, t)
  ]
