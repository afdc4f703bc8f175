-- ===== src/Timer/Laws.antt =====
-- When a timeout fires, src/timer.rs.
use sickle.Base.{
  ℕ, zero, suc, ◌≤◌, ◌≡◌, ◌≢◌, refl, sym, ap, subst, ◌∙◌, true, Option, none, some, ◌==◌, ltb, leb,
  if◌then◌else◌, Bool-cases, Option-cases, inl, inr, Outcome, ok, ◌>>=◌, unwrap, arith, After,
  After-bind, After-if, After-last,
}
use sickle.Timer.Defs.{Tick, empty, tick_max, EntryLinks, Entry, Timer}
use sickle.Timer.Ops.{
  slot_for, set_next_tick, schedule_readiness, unlink_and_remove, unlink, remove, set_links,
}
use sickle.Timer.Poll.{
  Turn, go_on, fired, next_slot, visit, turn, visit_entry, schedule_next, next_tick, rearm,
  after_turn, poll_loop, poll_to,
}

due_later : {k m n : Tick} → k ≤ m → leb m n ≡ true → k ≤ n
due_later h g = ground arith

module _ {T : Type 0} where
  -- Linking changes no state and no tick: what an entry holds, and when it is due.
  abbrev content : Option (Entry T) → Option (T × Tick)
  content none = none
  content (some e) = some (e.state, e.links.tick)

  abbrev SameContent : Timer T → Timer T → Type 0
  SameContent t t' = (j : ℕ) → content (t'.entries j) ≡ content (t.entries j)

  set_next-SameContent :
      (t : Timer T) (key next : ℕ)
      → After (SameContent t) (set_links t key (λ l. record l { next = next }))
  unfolding set_links
  set_next-SameContent t key next = elim (Option-cases (t.entries key)) [
    | inl e ↦ rw e tt
    | inr (x, e) ↦ rw e (λ j. ground arith)
  ]

  set_prev-SameContent :
      (t : Timer T) (key prev : ℕ)
      → After (SameContent t) (set_links t key (λ l. record l { prev = prev }))
  unfolding set_links
  set_prev-SameContent t key prev = elim (Option-cases (t.entries key)) [
    | inl e ↦ rw e tt
    | inr (x, e) ↦ rw e (λ j. ground arith)
  ]

  unlink-SameContent :
      (t : Timer T) (links : EntryLinks) (token : ℕ) → After (SameContent t) (unlink t links token)
  unfolding unlink
  unlink-SameContent t links token =
      After-bind (SameContent t) (SameContent t) _ _
        (After-if (SameContent t) (links.prev == empty) _ _ (λ j. refl)
          (set_next-SameContent t links.prev links.next))
        (λ t1 h1.
          After-if (SameContent t) (links.next == empty) _ _ (λ j. ground (arith, h1 j))
            (After-bind (SameContent t1) (SameContent t) _ _
              (set_prev-SameContent t1 links.next links.prev)
              (λ t2 h2 j. ground (arith, h1 j, h2 j))))

  -- One entry, with state `s` and tick `k`, is taken out, and every other one keeps its content.
  pub record Takes (entries : ℕ → Option (Entry T)) (key : ℕ) (s : T) (t' : Timer T) : Type 0 where
    pub tick : Tick
    pub was : content (entries key) ≡ some (s, tick)
    pub gone : t'.entries key ≡ none
    pub kept : (j : ℕ) → j ≢ key → content (t'.entries j) ≡ content (entries j)

  remove-Takes :
      (t t1 : Timer T) (key : ℕ)
      → SameContent t t1
      → After (λ (s, t2). Takes t.entries key s t2) (remove t1 key)
  unfolding remove
  remove-Takes t t1 key same = elim (Option-cases (t1.entries key)) [
    | inl e ↦ rw e tt
    | inr (x, e) ↦ rw e (record {
      tick = x.links.tick;
      was = sym (same key) ∙ ap content e;
      gone = ground arith;
      kept = λ j ne. ground (arith, same j);
    })
  ]

  -- What `unlink_and_remove` returns is the state of the entry that it takes out.
  abbrev pub Taken : Timer T → ℕ → Option T × Timer T → Type 0
  Taken t key r = (s : T) × (r.0 ≡ some s) × Takes t.entries key s r.1

  unlink_and_remove-Taken :
      (t : Timer T) (links : EntryLinks) (key : ℕ)
      → After (Taken t key) (unlink_and_remove t links key)
  unfolding unlink_and_remove
  unlink_and_remove-Taken t links key =
      After-bind (SameContent t) (Taken t key) _ _ (unlink-SameContent t links key) (λ t1 same.
        After-bind (λ (s, t2). Takes t.entries key s t2) (Taken t key) (remove t1 key)
          (λ (r : T × Timer T). ok (some r.0, r.1)) (remove-Takes t t1 key same)
          (λ r takes. (r.0, refl, takes)))

  -- A timeout that fires: its entry was due by `target`.
  pub record Fires (entries : ℕ → Option (Entry T)) (target : Tick) (s : T) (t' : Timer T)
      : Type 0 where
    pub key : ℕ
    pub takes : Takes entries key s t'
    pub due : takes.tick ≤ target

  abbrev TurnKeeps : (ℕ → Option (Entry T)) → Tick → Turn T → Type 0
  TurnKeeps entries tick (go_on t') = t'.entries ≡ entries
  TurnKeeps entries tick (fired s t') = Fires entries tick s t'

  next_slot-entries : (t : Timer T) → (next_slot t).entries ≡ t.entries
  unfolding next_slot
  next_slot-entries t = ground arith

  due_of :
      (o : Option (Entry T)) {e : Entry T} {s : T} {k m : Tick}
      → o ≡ some e
      → content o ≡ some (s, k)
      → leb e.links.tick m ≡ true
      → k ≤ m
  due_of o h w d = ground arith

  visit_entry-TurnKeeps :
      (t : Timer T) (slot curr : ℕ) (e : Entry T)
      → t.entries curr ≡ some e
      → After (TurnKeeps t.entries t.tick) (visit_entry t slot curr e)
  unfolding visit_entry
  visit_entry-TurnKeeps t slot curr e live = elim (Bool-cases (leb e.links.tick t.tick)) [
    | inl due ↦ rw due (
        After-bind (Taken t curr) (TurnKeeps t.entries t.tick) (unlink_and_remove t e.links curr)
          (λ (r : Option T × Timer T). do s ← unwrap r.0; ok (fired s r.1))
          (unlink_and_remove-Taken t e.links curr)
          (λ r (s, got, takes). rw got (record {
            key = curr;
            takes = takes;
            due = due_of (t.entries curr) live takes.was due;
          })))
    | inr later ↦ rw later refl
  ]

  visit_at :
      (t : Timer T) (slot curr : ℕ)
      → After (TurnKeeps t.entries t.tick) (unwrap (t.entries curr) >>= visit_entry t slot curr)
  visit_at t slot curr = elim (Option-cases (t.entries curr)) [
    | inl e ↦ rw e tt
    | inr (x, e) ↦
        subst (λ o. After (TurnKeeps t.entries t.tick) (unwrap o >>= visit_entry t slot curr))
          (sym e) (visit_entry-TurnKeeps t slot curr x e)
  ]

  visit-TurnKeeps : (t : Timer T) (curr : ℕ) → After (TurnKeeps t.entries t.tick) (visit t curr)
  unfolding visit
  visit-TurnKeeps t curr =
      let slot = slot_for t t.tick in
      elim (Bool-cases (curr == (t.wheel slot).head)) [
        | inl h ↦ rw h (visit_at (set_next_tick t slot tick_max) slot curr)
        | inr h ↦ rw h (visit_at t slot curr)
      ]

  turn-TurnKeeps : (t : Timer T) → After (TurnKeeps t.entries t.tick) (turn t)
  unfolding turn
  turn-TurnKeeps t =
      After-if (TurnKeeps t.entries t.tick) (t.next == empty) _ _ (next_slot-entries t)
        (visit-TurnKeeps t t.next)

  schedule_next-entries :
      (t : Timer T) (tick : Option Tick) → (schedule_next t tick).entries ≡ t.entries
  unfolding schedule_next schedule_readiness
  schedule_next-entries t none = refl
  schedule_next-entries t (some tick) = elim (Option-cases t.inner) [
    | inl e ↦ rw (e, schedule_readiness)
    | inr (x, e) ↦ rw (e, schedule_readiness)
  ]

  rearm-entries : (t : Timer T) → After (λ (t' : Timer T). t'.entries ≡ t.entries) (rearm t)
  unfolding rearm
  rearm-entries t = elim (Option-cases t.inner) [
    | inl e ↦ rw (e, rearm)
    | inr (x, e) ↦
        let t1 : Timer T = record t { inner = some (record x { readiness = 0 }) } in
        rw (e, rearm)
          (After-last (λ (t' : Timer T). t'.entries ≡ t.entries) (next_tick t1)
            (λ tick. ok (schedule_next t1 tick)) (schedule_next-entries t1))
  ]

  -- What a poll does to the entries: nothing if it returns none, and else one of them fires.
  abbrev pub PollKeeps : (ℕ → Option (Entry T)) → Tick → Option T × Timer T → Type 0
  PollKeeps entries target (none, t') = t'.entries ≡ entries
  PollKeeps entries target (some s, t') = Fires entries target s t'

  after_turn-PollKeeps :
      (t : Timer T) (target : Tick) (loop : Timer T → Outcome (Option T × Timer T))
      → leb t.tick target ≡ true
      → ((t1 : Timer T) → After (PollKeeps t1.entries target) (loop t1))
      → (r : Turn T) → TurnKeeps t.entries t.tick r
      → After (PollKeeps t.entries target) (after_turn loop r)
  unfolding after_turn
  after_turn-PollKeeps t target loop early ih (go_on t1) same =
      subst (λ f. After (PollKeeps f target) (loop t1)) same (ih t1)
  after_turn-PollKeeps t target loop early ih (fired s t1) f = record {
    key = f.key;
    takes = f.takes;
    due = due_later f.due early;
  }

  poll_loop-PollKeeps :
      (fuel : ℕ) (target : Tick) (t : Timer T)
      → After (PollKeeps t.entries target) (poll_loop fuel target t)
  unfolding poll_loop
  poll_loop-PollKeeps zero target t = tt
  poll_loop-PollKeeps (suc fuel) target t = elim (Bool-cases (leb t.tick target)) [
    | inl early ↦ rw early (
        After-bind (TurnKeeps t.entries t.tick) (PollKeeps t.entries target) (turn t)
          (after_turn (poll_loop fuel target)) (turn-TurnKeeps t)
          (after_turn-PollKeeps t target (poll_loop fuel target) early
            (poll_loop-PollKeeps fuel target)))
    | inr late ↦ rw late (
        After-bind (λ (t' : Timer T). t'.entries ≡ t.entries) (PollKeeps t.entries target) (rearm t)
          (λ (t1 : Timer T). ok (none, t1)) (rearm-entries t) (λ t1 e. e))
  ]

  -- A poll to `target` that returns never fires early. If it returns no state, it has kept all
  -- entries. If it returns one, that is the state of an entry whose tick is at most the tick polled to,
  -- which is `target` or the timer's own tick if that is later; this entry is gone, and every other
  -- entry keeps its state and its tick.
  pub poll_to-Fires :
      (fuel : ℕ) (target : Tick) (t : Timer T)
      → After
          (PollKeeps t.entries (if ltb target t.tick then t.tick else target))
          (poll_to fuel target t)
  unfolding poll_to
  poll_to-Fires fuel target t =
      poll_loop-PollKeeps fuel (if ltb target t.tick then t.tick else target) t
