-- ===== src/Poll/Lock/Invariant.antt =====
-- What holds of the lock in every reachable state.
use sickle.Base.{
  ℕ, ◌+◌, ◌*◌, ◌%◌, ◌^◌, ◌<◌, ◌≤◌, ◌≡◌, ◌≢◌, refl, sym, Bool, true, none, some, arith, update, inl,
  inr, ◌⊎◌,
}
use sickle.Poll.Lock.Defs.{
  Pc, idle, asleep, woken, notifying, Poller, Shared, remaining, System, Step, move, notified,
  notified_none, Move, wakes, init, Reach, start, later,
}
use sickle.Poll.Lock.Count.{
  total, total-update, weight-le-total, total-le, total-zero, test-update, update-test,
  update-test_self,
}
use sickle.Poll.Lock.Change.{
  held, queued, owns, relies, helps, seen, Change, Handover, Move-Handover,
}

abbrev pub held_by : Poller → ℕ
held_by p = held p.pc

abbrev pub queued_by : Poller → ℕ
queued_by p = queued p.pc

abbrev pub helps_by : Poller → Bool
helps_by p = helps p.pc

abbrev pub relies_by : Poller → Bool
relies_by p = relies p.pc

abbrev pub Helper : ℕ → (ℕ → Poller) → Type 0
Helper n pollers = (j : ℕ) × (j < n) × (helps (pollers j).pc ≡ true)

pub record Inv (n : ℕ) (s : System) : Type 0 where
  pub counted : s.shared.lock_state ≡ total held_by s.pollers n + 2 * total queued_by s.pollers n
  pub single : total held_by s.pollers n ≤ 1
  pub owner : (i : ℕ) → i < n → owns (s.pollers i).pc ≡ true → s.shared.mutex ≡ some i
  pub helped :
      (i : ℕ)
      → i < n
      → relies (s.pollers i).pc ≡ true
      → s.shared.lock_state % 2 ≡ 0
      → Helper n s.pollers
  pub recent : (i : ℕ) → i < n → seen (s.pollers i).pc ≤ 2 * n + 1

queued-le-one : (p : Poller) → queued_by p ≤ 1
queued-le-one p = ground arith

pub Inv-lock_state : {n : ℕ} {s : System} → Inv n s → s.shared.lock_state ≤ 2 * n + 1
Inv-lock_state {n} {s} v = ground (arith, total-le queued_by s.pollers 1 n queued-le-one)

relies-queued : (pc : Pc) → relies pc ≡ true → queued pc ≡ 1
relies-queued pc h = ground arith

parity : (a : ℕ) → (a % 2 ≡ 0) ⊎ (a % 2 ≡ 1)
parity a = omega arith

-- The step of thread `i` changes the pollers at `i` only.
module _ (n i : ℕ) (s : System) (m : Shared) (p : Poller) (v : Inv n s) (small : i < n)
    (h : Handover s.shared (s.pollers i).pc m p.pc) where
  relied :
      (k : ℕ)
      → relies (update s.pollers i p k).pc ≡ true
      → m.lock_state % 2 ≡ 0
      → relies (s.pollers k).pc ≡ true
  relied k r even = elim (test-update relies_by s.pollers i p k r) [
    | inl (e, r') ↦ rw e (h.reliance r' even).0
    | inr r' ↦ r'
  ]

  still_helped :
      (k : ℕ)
      → k < n
      → relies (update s.pollers i p k).pc ≡ true
      → s.shared.lock_state % 2 ≡ 0
      → m.lock_state % 2 ≡ 0
      → Helper n (update s.pollers i p)
  still_helped k fits r before even =
      let (j, lt, helper) = v.helped k fits (relied k r even) before in
      (
        j,
        lt,
        update-test helps_by s.pollers i p j helper
            (λ e. h.helping (rw (sym e) helper) before even),
      )

  helped_by_release :
      (k : ℕ)
      → k < n
      → relies (update s.pollers i p k).pc ≡ true
      → s.shared.lock_state % 2 ≡ 1
      → m.lock_state % 2 ≡ 0
      → Helper n (update s.pollers i p)
  helped_by_release k fits r before even = elim (h.leaving before even) [
    | inl helper ↦ (i, small, update-test_self helps_by s.pollers i p helper)
    | inr (one, free) ↦ absurd (
        omega (
          arith,
          v.counted,
          v.single,
          weight-le-total queued_by s.pollers n k fits,
          relies-queued (s.pollers k).pc (relied k r even),
        ))
  ]

  next-helped :
      (k : ℕ)
      → k < n
      → relies (update s.pollers i p k).pc ≡ true
      → m.lock_state % 2 ≡ 0
      → Helper n (update s.pollers i p)
  next-helped k fits r even = elim (parity s.shared.lock_state) [
    | inl before ↦ still_helped k fits r before even
    | inr before ↦ helped_by_release k fits r before even
  ]

-- The invariant after the step, if those who rely on another have a helper.
module _ (n i : ℕ) (s : System) (m : Shared) (p : Poller) (v : Inv n s) (small : i < n)
    (c : Change i s.shared (s.pollers i).pc m p.pc) where
  Change-Inv :
      ((k : ℕ)
        → k < n
        → relies (update s.pollers i p k).pc ≡ true
        → m.lock_state % 2 ≡ 0
        → Helper n (update s.pollers i p))
      → Inv n (record { shared = m; pollers = update s.pollers i p })
  Change-Inv helped' =
      let held_count = total-update held_by s.pollers p n i small in
      let queued_count = total-update queued_by s.pollers p n i small in
      record {
        counted = omega (arith, held_count, queued_count, v.counted, c.counted);
        single = ground (
          arith,
          held_count,
          queued_count,
          v.counted,
          v.single,
          c.entered,
          weight-le-total held_by s.pollers n i small,
        );
        owner = λ k fits o. ground (arith, v.owner k fits, c.owner, c.others k);
        helped = helped';
        recent = λ k fits.
            ground (arith, v.recent k fits, v.recent i small, c.remembers, Inv-lock_state v);
      }

held-le-one : (pc : Pc) → held pc ≤ 1
held-le-one pc = ground arith

Move-Inv :
    (n i : ℕ) (s : System) {m : Shared} {p : Poller}
    → n < 2 ^ 62
    → Inv n s
    → i < n
    → Move i s.shared (s.pollers i) m p
    → Inv n (record { shared = m; pollers = update s.pollers i p })
Move-Inv n i s {m} {p} few v small mv =
    let held_small = weight-le-total held_by s.pollers n i small in
    let queued_small = weight-le-total queued_by s.pollers n i small in
    let (c, h) =
      Move-Handover (omega (arith, Inv-lock_state v))
        (omega (arith, held_small, queued_small, v.counted))
        (λ e. omega (arith, held_small, v.counted, v.single)) (v.owner i small) mv in
    Change-Inv n i s m p v small c (next-helped n i s m p v small h)

asleep_apart :
    (i j : ℕ) (pollers : ℕ → Poller) → (pollers i).pc ≡ notifying → (pollers j).pc ≡ asleep → i ≢ j
asleep_apart i j pollers e f same = cc

relies-owns : (pc : Pc) → relies pc ≡ true → pc ≢ asleep → owns pc ≡ true
relies-owns pc h ne = ground arith

-- The end of `notify_one` and of the block round it.
done-Change :
    (i : ℕ) (m : Shared) (pc : Pc)
    → pc ≡ notifying
    → m.mutex ≡ some i
    → Change i m pc (record m { mutex = none }) idle
done-Change i m pc e mine = ground arith

-- Every step keeps the invariant.
Step-Inv : {n : ℕ} {s t : System} → n < 2 ^ 62 → Step n s t → Inv n s → Inv n t
Step-Inv {n} {s} few (move i small mv) v = Move-Inv n i s few v small mv
Step-Inv {n} {s} few (notified i j elapsed small small' at asleep') v =
    let awake : Poller = record { pc = woken; timeout = remaining (s.pollers j).timeout elapsed } in
    let s1 : System = record s { pollers = update s.pollers j awake } in
    let v1 : Inv n s1 = Move-Inv n j s few v small' (wakes elapsed asleep' refl refl) in
    let still : (s1.pollers i).pc ≡ notifying =
      ground (arith, asleep_apart i j s.pollers at asleep') in
    Change-Inv n i s1 (record s.shared { mutex = none }) (record (s.pollers i) { pc = idle }) v1
      small (done-Change i s.shared (s1.pollers i).pc still (v.owner i small (rw at)))
      (λ k fits r even. (j, small', ground (arith, asleep_apart i j s.pollers at asleep')))
Step-Inv {n} {s} few (notified_none i small at none_asleep) v =
    Change-Inv n i s (record s.shared { mutex = none }) (record (s.pollers i) { pc = idle }) v small
      (done-Change i s.shared (s.pollers i).pc at (v.owner i small (rw at)))
      (λ k fits r even. absurd (
        grind (
          arith,
          test-update relies_by s.pollers i (record (s.pollers i) { pc = idle }) k r,
          relies-owns (s.pollers k).pc,
          none_asleep k fits,
          v.owner k fits,
          v.owner i small,
        )))

Inv-init : (n : ℕ) → Inv n init
Inv-init n = record {
  counted = omega (
    arith,
    total-zero held_by init.pollers n (λ k lt. refl),
    total-zero queued_by init.pollers n (λ k lt. refl),
  );
  single = omega (arith, total-zero held_by init.pollers n (λ k lt. refl));
  owner = λ i small o. cc;
  helped = λ i small r even. cc;
  recent = λ i small. omega arith;
}

pub Reach-Inv : {n : ℕ} {s : System} → n < 2 ^ 62 → Reach n s → Inv n s
Reach-Inv {n} few start = Inv-init n
Reach-Inv few (later r st) = Step-Inv few st (Reach-Inv few r)
