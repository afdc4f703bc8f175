-- ===== src/Timer/Slots/Promise.antt =====
-- A timeout that is set for a later tick, through all that comes after it, src/timer.rs.
use sickle.Base.{
  ℕ, ◌<◌, ◌≤◌, ◌≡◌, ◌≢◌, refl, subst, ◌⊎◌, inl, inr, Option, none, some, ltb, arith, if◌then◌else◌,
  ok, After,
}
use sickle.Timer.Defs.{Tick, empty, Timeout, Inner, Timer}
use sickle.Timer.Ops.{insert, cancel_timeout}
use sickle.Timer.Poll.{poll_to}
use sickle.Timer.Slots.Returns.{poll_to-total}
use sickle.Timer.Slots.Reached.{Reached, Reached-IsOrdered}
use sickle.Timer.Slots.Keeps.{
  IsOwed, insert-IsOwed_self, insert-IsOwed, cancel_timeout-IsOwed, Waits-Same, Polled,
  poll_loop-Polled,
}

module _ {T : Type 0} where
  -- What may happen to a timer while the entry at `k` is in its slab: other timeouts are set, timeouts
  -- are cancelled, it is polled, and what it shares with the wakeup thread changes.
  pub data Since (k : ℕ) (t0 : Timer T) : Timer T → Type 0 where
    now : Since k t0 t0
    set :
        {t t' : Timer T} (key : ℕ) (tick : Tick) (state : T) (timeout : Timeout)
        → Since k t0 t
        → t.entries key ≡ none
        → key ≢ empty
        → insert t key tick state ≡ ok (timeout, t')
        → Since k t0 t'
    cancelled :
        {t t' : Timer T} (timeout : Timeout) (state : Option T)
        → Since k t0 t
        → cancel_timeout t timeout ≡ ok (state, t')
        → t'.entries k ≢ none
        → Since k t0 t'
    polled :
        {t t' : Timer T} (fuel : ℕ) (target : Tick) (state : Option T)
        → Since k t0 t
        → poll_to fuel target t ≡ ok (state, t')
        → t'.entries k ≢ none
        → Since k t0 t'
    shared :
        {t : Timer T} (inner : Option Inner)
        → Since k t0 t
        → Since k t0 (record t { inner = inner })

  module _ (k : ℕ) (s : T) (tick : Tick) where
    poll_to-Polled :
        (fuel : ℕ) (target : Tick) (t : Timer T)
        → IsOwed t k s tick
        → After
            (Polled k s tick (if ltb target t.tick then t.tick else target))
            (poll_to fuel target t)
    unfolding poll_to
    poll_to-Polled fuel target t (slots, e, w, state, on) =
        poll_loop-Polled k s tick fuel (if ltb target t.tick then t.tick else target) t slots e w
          state on

    still :
        {A : Type 0}
        → (t : Timer T) → t.entries k ≢ none
        → A ⊎ IsOwed t k s tick
        → (A → t.entries k ≡ none)
        → IsOwed t k s tick
    still t there (inl a) out = absurd (there (out a))
    still t there (inr owed) out = owed

    Since-IsOwed : {t0 t : Timer T} → IsOwed t0 k s tick → Since k t0 t → IsOwed t k s tick
    Since-IsOwed owed now = owed
    Since-IsOwed owed (set {t} key tick' state timeout r free real got) =
        subst (After (λ (x : Timeout × Timer T). IsOwed x.1 k s tick)) got
          (insert-IsOwed t k s tick (Since-IsOwed owed r) key tick' state free real)
    Since-IsOwed owed (cancelled {t} {t'} timeout state r got there) =
        still t' there
          (subst (After (λ (x : Option T × Timer T). (x.1.entries k ≡ none) ⊎ IsOwed x.1 k s tick))
            got (cancel_timeout-IsOwed t k s tick (Since-IsOwed owed r) timeout))
          (λ h. h)
    Since-IsOwed owed (polled {t} {t'} fuel target none r got there) =
        let h =
          subst (After (Polled k s tick (if ltb target t.tick then t.tick else target))) got
            (poll_to-Polled fuel target t (Since-IsOwed owed r)) in
        h.1
    Since-IsOwed owed (polled {t} {t'} fuel target (some x) r got there) =
        still t' there
          (subst (After (Polled k s tick (if ltb target t.tick then t.tick else target))) got
            (poll_to-Polled fuel target t (Since-IsOwed owed r)))
          (λ h. h.1)
    Since-IsOwed owed (shared {t} inner r) =
        let (slots, e, w, state, on) = Since-IsOwed owed r in
        (
          slots,
          e,
          Waits-Same slots k e t (record t { inner = inner }) w (refl, refl, refl, refl, refl),
          state,
          on,
        )

    abbrev Delivers : Timer T → Tick → Type 0
    Delivers t target =
        (enough : ℕ) × (x : T) × (t' : Timer T) × ((fuel : ℕ)
          → enough ≤ fuel
          → poll_to fuel target t ≡ ok (some x, t'))
        × (((x ≡ s) × (t'.entries k ≡ none)) ⊎ (t'.entries k ≢ none))

    IsOwed-live : (t : Timer T) → IsOwed t k s tick → t.entries k ≢ none
    IsOwed-live t (slots, e, w, state, on) h = ground (arith, w.live, h)

    delivered :
        (t : Timer T) (target : Tick) (enough : ℕ) (r : Option T × Timer T)
        → tick ≤ target
        → ((fuel : ℕ) → enough ≤ fuel → poll_to fuel target t ≡ ok r)
        → Polled k s tick (if ltb target t.tick then t.tick else target) r
        → Delivers t target
    delivered t target enough (none, t') due runs p = absurd (ground (arith, p.0))
    delivered t target enough (some x, t') due runs (inl fired) = (enough, x, t', runs, inl fired)
    delivered t target enough (some x, t') due runs (inr owed) =
        (enough, x, t', runs, inr (IsOwed-live t' owed))

    -- A timeout set under a free key of a reachable timer for a tick after the timer's is never
    -- missed. Whatever timeouts are set and cancelled, whatever polls return and whatever changes in
    -- what is shared with the wakeup thread since then, as long as its entry is in the slab: a poll
    -- to its tick or a later one returns, from some fuel on, a state. Either it is the state of this
    -- timeout, whose entry is then out of the slab, or the entry is still there.
    pub poll_to-delivers :
        (t0 t1 t : Timer T) (timeout : Timeout) (target : Tick)
        → Reached t0
        → t0.entries k ≡ none
        → k ≢ empty
        → t0.tick < tick
        → insert t0 k tick s ≡ ok (timeout, t1)
        → Since k t1 t
        → tick ≤ target
        → (enough : ℕ) × (x : T) × (t' : Timer T) × ((fuel : ℕ)
            → enough ≤ fuel
            → poll_to fuel target t ≡ ok (some x, t'))
          × (((x ≡ s) × (t'.entries k ≡ none)) ⊎ (t'.entries k ≢ none))
    poll_to-delivers t0 t1 t timeout target reached free real later got since due =
        let owed0 : IsOwed t1 k s tick =
          subst (After (λ (x : Timeout × Timer T). IsOwed x.1 k s tick)) got
            (insert-IsOwed_self t0 k s tick (Reached-IsOrdered reached) free real later) in
        let owed = Since-IsOwed owed0 since in
        let (enough, r, runs, ord, _) = poll_to-total target t (owed.0, owed.2.ordered) in
        delivered t target enough r due runs (
          subst (After (Polled k s tick (if ltb target t.tick then t.tick else target)))
            (runs enough (omega arith)) (poll_to-Polled enough target t owed))
