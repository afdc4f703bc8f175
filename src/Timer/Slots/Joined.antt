-- ===== src/Timer/Slots/Joined.antt =====
-- The entries of src/timer.rs with a new one before the head of its slot.
use sickle.Base.{ℕ, ◌≡◌, ◌≢◌, false, Option, none, some, List, [], ◌∷◌, ◌==◌, arith, if◌then◌else◌}
use sickle.Timer.Defs.{Entry, Timer}
use sickle.Timer.Slots.Links.{mem, Distinct, first, Entries, Cell, Linked}

-- The new key is the first of its slot.
abbrev pub slots_with : (ℕ → List ℕ) → (slot k : ℕ) → ℕ → List ℕ
slots_with slots slot k s = if s == slot then k ∷ slots s else slots s

module _ {T : Type 0} where
  abbrev pub pushed : ℕ → Option (Entry T) → Option (Entry T)
  pushed key none = none
  pushed key (some e) = some (record e { links = record e.links { prev = key } })

  -- The entries with `e` at `key` and `key` before `head`.
  unfoldable pub joined : Entries T → (key head : ℕ) → Entry T → Entries T
  joined entries key head e j =
      if j == key then some e else if j == head then pushed key (entries j) else entries j

  pub Cell-joined :
      (entries : Entries T) (mask slot j prev next key head : ℕ) (e : Entry T) (prev' : ℕ)
      → Cell entries mask slot j prev next
      → j ≢ key
      → (if j == head then key else prev) ≡ prev'
      → Cell (joined entries key head e) mask slot j prev' next
  unfolding joined
  Cell-joined entries mask slot j prev next key head e prev' c ne before = record {
    entry =
        if j == head
        then record c.entry { links = record c.entry.links { prev = key } }
        else c.entry;
    live = ground (arith, c.live);
    before = ground (arith, c.before);
    after = ground (arith, c.after);
    placed = ground (arith, c.placed);
    real = c.real;
  }

  pub Linked-joined_apart :
      (entries : Entries T) (mask slot prev key head : ℕ) (e : Entry T) (ks : List ℕ)
      → mem key ks ≡ false
      → mem head ks ≡ false
      → Linked entries mask slot prev ks
      → Linked (joined entries key head e) mask slot prev ks
  Linked-joined_apart entries mask slot prev key head e [] a b h = tt
  Linked-joined_apart entries mask slot prev key head e (x ∷ xs) a b h = (
    Cell-joined entries mask slot x prev (first xs) key head e prev h.0 (ground arith)
        (ground arith),
    Linked-joined_apart entries mask slot x key head e xs (ground arith) (ground arith) h.1,
  )

  -- The old entries of the slot of the new one.
  pub Linked-joined :
      (entries : Entries T) (mask slot prev key : ℕ) (e : Entry T) (ks : List ℕ)
      → mem key ks ≡ false
      → Distinct ks
      → Linked entries mask slot prev ks
      → Linked (joined entries key (first ks) e) mask slot key ks
  Linked-joined entries mask slot prev key e [] a d h = tt
  Linked-joined entries mask slot prev key e (x ∷ xs) a d h = (
    Cell-joined entries mask slot x prev (first xs) key x e key h.0 (ground arith) (ground arith),
    Linked-joined_apart entries mask slot x key x e xs (ground arith) (ground arith) h.1,
  )

  -- What `insert` does to the slab and the wheel: the entry `e` is the new first of the slot.
  pub record Inserted (t : Timer T) (key slot : ℕ) (e : Entry T) (t' : Timer T) : Type 0 where
    pub entries : (j : ℕ) → t'.entries j ≡ joined t.entries key (t.wheel slot).head e j
    pub heads : (s : ℕ) → (t'.wheel s).head ≡ (if s == slot then key else (t.wheel s).head)
    pub next : t'.next ≡ t.next
    pub tick : t'.tick ≡ t.tick
    pub mask : t'.mask ≡ t.mask
