-- ===== src/Timer/Slots/Unlink.antt =====
-- `unlink` and the removal after it, src/timer.rs, as one change of the slab and the wheel.
use sickle.Base.{
  ℕ, ◌≡◌, ◌≢◌, refl, ◌⊎◌, inl, inr, ◌&&◌, none, some, ◌==◌, arith, if◌then◌else◌, ok, update,
}
use sickle.Timer.Defs.{empty, EntryLinks, Entry, Timer}
use sickle.Timer.Ops.{slot_for, set_head, set_links, unlink, remove, unlink_and_remove}
use sickle.Timer.Slots.Links.{unlinked}

module _ {T : Type 0} where
  -- The entry at `k`, with the links `l`, is gone, and its neighbours lead to one another.
  pub record Removed (t : Timer T) (k : ℕ) (l : EntryLinks) (t' : Timer T) : Type 0 where
    pub entries : (j : ℕ) → t'.entries j ≡ unlinked t.entries k l j
    pub heads :
        (s : ℕ)
        → (t'.wheel s).head
          ≡ (if (l.prev == empty) && (s == slot_for t l.tick) then l.next else (t.wheel s).head)
    pub next : t'.next ≡ (if k == t.next then l.next else t.next)
    pub tick : t'.tick ≡ t.tick
    pub mask : t'.mask ≡ t.mask
    pub inner : t'.inner ≡ t.inner

  abbrev pub Neighbour : Timer T → ℕ → Type 0
  Neighbour t k = (k ≡ empty) ⊎ ((x : Entry T) × (t.entries k ≡ some x) × (k ≢ empty))

  abbrev Unlinks : Timer T → EntryLinks → ℕ → T → Type 0
  Unlinks t l k s = (t' : Timer T) × (unlink_and_remove t l k ≡ ok (some s, t')) × Removed t k l t'

  abbrev headed : Timer T → EntryLinks → Timer T
  headed t l = set_head t (slot_for t l.tick) l.next

  abbrev put : Timer T → ℕ → Entry T → Timer T
  put t j e = record t { entries = update t.entries j (some e) }

  abbrev taken : Timer T → ℕ → ℕ → Timer T
  taken t k next = record t {
    entries = update t.entries k none;
    next = if k == t.next then next else t.next;
  }

  module _ (t : Timer T) (l : EntryLinks) (k : ℕ) (e : Entry T) (live : t.entries k ≡ some e)
      (none_empty : t.entries empty ≡ none) (other : k ≢ l.prev) (other' : k ≢ l.next) where
    alone : l.prev ≡ empty → l.next ≡ empty → Unlinks t l k e.state
    unfolding unlink_and_remove unlink remove unlinked
    alone p n = (
      taken (headed t l) k l.next,
      ground arith,
      record {
        entries = λ j. ground arith;
        heads = λ s. ground arith;
        next = refl;
        tick = refl;
        mask = refl;
        inner = refl;
      },
    )

    at_front :
        l.prev ≡ empty
        → (y : Entry T) → t.entries l.next ≡ some y
        → l.next ≢ empty
        → Unlinks t l k e.state
    unfolding unlink_and_remove unlink remove unlinked set_links
    at_front p y live' n = (
      taken (put (headed t l) l.next (record y { links = record y.links { prev = l.prev } })) k
          l.next,
      ground arith,
      record {
        entries = λ j. ground arith;
        heads = λ s. ground arith;
        next = refl;
        tick = refl;
        mask = refl;
        inner = refl;
      },
    )

    at_back :
        (x : Entry T)
        → t.entries l.prev ≡ some x
        → l.prev ≢ empty
        → l.next ≡ empty
        → Unlinks t l k e.state
    unfolding unlink_and_remove unlink remove unlinked set_links
    at_back x live' p n = (
      taken (put t l.prev (record x { links = record x.links { next = l.next } })) k l.next,
      ground arith,
      record {
        entries = λ j. ground arith;
        heads = λ s. ground arith;
        next = refl;
        tick = refl;
        mask = refl;
        inner = refl;
      },
    )

    between :
        (x y : Entry T)
        → t.entries l.prev ≡ some x
        → l.prev ≢ empty
        → t.entries l.next ≡ some y
        → l.next ≢ empty
        → Unlinks t l k e.state
    unfolding unlink_and_remove unlink remove unlinked set_links
    between x y live' p live'' n =
        let x' : Entry T = record x { links = record x.links { next = l.next } } in
        let y' : Entry T = if l.next == l.prev then x' else y in
        (
          taken
              (put (put t l.prev x') l.next
                (record y' { links = record y'.links { prev = l.prev } }))
              k l.next,
          ground arith,
          record {
            entries = λ j. ground arith;
            heads = λ s. ground arith;
            next = refl;
            tick = refl;
            mask = refl;
            inner = refl;
          },
        )

    -- The entry at `k` is taken out and its state returned, if its neighbours are there.
    pub unlink_and_remove-Removed :
        Neighbour t l.prev
        → Neighbour t l.next
        → (t' : Timer T) × (unlink_and_remove t l k ≡ ok (some e.state, t')) × Removed t k l t'
    unlink_and_remove-Removed (inl p) (inl n) = alone p n
    unlink_and_remove-Removed (inl p) (inr (y, live', n)) = at_front p y live' n
    unlink_and_remove-Removed (inr (x, live', p)) (inl n) = at_back x live' p n
    unlink_and_remove-Removed (inr (x, live', p)) (inr (y, live'', n)) =
        between x y live' p live'' n
