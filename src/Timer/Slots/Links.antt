-- ===== src/Timer/Slots/Links.antt =====
-- A doubly linked list of entries, src/timer.rs: what it stands for, and taking one entry out.
use sickle.Base.{
  ℕ, ◌≡◌, ◌≢◌, ◌⊎◌, inl, inr, Bool, true, false, ◌||◌, Option, none, some, List, [], ◌∷◌, ◌==◌,
  arith, if◌then◌else◌, Bool-cases,
}
use sickle.Bits.{bit_and}
use sickle.Timer.Defs.{empty, EntryLinks, Entry}

abbrev pub mem : ℕ → List ℕ → Bool
mem k [] = false
mem k (x ∷ xs) = (k == x) || mem k xs

abbrev pub Distinct : List ℕ → Type 0
Distinct [] = Unit
Distinct (x ∷ xs) = (mem x xs ≡ false) × Distinct xs

abbrev pub first : List ℕ → ℕ
first [] = empty
first (x ∷ xs) = x

abbrev pub erase : ℕ → List ℕ → List ℕ
erase k [] = []
erase k (x ∷ xs) = if x == k then xs else x ∷ erase k xs

abbrev pub Entries : Type 0 → Type 0
Entries T = ℕ → Option (Entry T)

module _ {T : Type 0} where
  -- The entry at `k` stands between `prev` and `next`, and its tick belongs to `slot`.
  pub record Cell (entries : Entries T) (mask slot k prev next : ℕ) : Type 0 where
    pub entry : Entry T
    pub live : entries k ≡ some entry
    pub before : entry.links.prev ≡ prev
    pub after : entry.links.next ≡ next
    pub placed : bit_and mask entry.links.tick ≡ slot
    pub real : k ≢ empty

  abbrev pub Linked : Entries T → (mask slot prev : ℕ) → List ℕ → Type 0
  Linked entries mask slot prev [] = Unit
  Linked entries mask slot prev (k ∷ ks) =
      Cell entries mask slot k prev (first ks) × Linked entries mask slot k ks

  -- The entries after the one at `k`, with the links `l`, was taken out.
  abbrev pub relinked : EntryLinks → ℕ → Entry T → Entry T
  relinked l j e = record e {
    links = record e.links {
      prev = if j == l.next then l.prev else e.links.prev;
      next = if j == l.prev then l.next else e.links.next;
    };
  }

  abbrev pub adjusted : EntryLinks → ℕ → Option (Entry T) → Option (Entry T)
  adjusted l j none = none
  adjusted l j (some e) = some (relinked l j e)

  unfoldable pub unlinked : Entries T → ℕ → EntryLinks → Entries T
  unlinked entries k l j = if j == k then none else adjusted l j (entries j)

  pub Cell-unlinked :
      (entries : Entries T) (mask slot j prev next k : ℕ) (l : EntryLinks) (prev' next' : ℕ)
      → Cell entries mask slot j prev next
      → j ≢ k
      → (if j == l.next then l.prev else prev) ≡ prev'
      → (if j == l.prev then l.next else next) ≡ next'
      → Cell (unlinked entries k l) mask slot j prev' next'
  unfolding unlinked
  Cell-unlinked entries mask slot j prev next k l prev' next' c ne before after = record {
    entry = relinked l j c.entry;
    live = ground (arith, c.live);
    before = ground (arith, c.before);
    after = ground (arith, c.after);
    placed = c.placed;
    real = c.real;
  }

  -- A list that the entry and its neighbours are not in stays as it is.
  pub Linked-unlinked_apart :
      (entries : Entries T) (mask slot prev k : ℕ) (l : EntryLinks) (ks : List ℕ)
      → mem k ks ≡ false
      → mem l.prev ks ≡ false
      → mem l.next ks ≡ false
      → Linked entries mask slot prev ks
      → Linked (unlinked entries k l) mask slot prev ks
  Linked-unlinked_apart entries mask slot prev k l [] a b c d = tt
  Linked-unlinked_apart entries mask slot prev k l (x ∷ xs) a b c d = (
    Cell-unlinked entries mask slot x prev (first xs) k l prev (first xs) d.0 (ground arith)
        (ground arith) (ground arith),
    Linked-unlinked_apart entries mask slot x k l xs (ground arith) (ground arith) (ground arith)
        d.1,
  )

  -- The first entry is taken out.
  pub Linked-unlinked_front :
      (entries : Entries T) (mask slot prev k : ℕ) (l : EntryLinks) (ks : List ℕ)
      → mem k ks ≡ false
      → Distinct ks
      → mem prev ks ≡ false
      → l.prev ≡ prev
      → l.next ≡ first ks
      → Linked entries mask slot k ks
      → Linked (unlinked entries k l) mask slot prev ks
  Linked-unlinked_front entries mask slot prev k l [] a d out before after h = tt
  Linked-unlinked_front entries mask slot prev k l (x ∷ xs) a d out before after h = (
    Cell-unlinked entries mask slot x k (first xs) k l prev (first xs) h.0 (ground arith)
        (ground arith) (ground arith),
    Linked-unlinked_apart entries mask slot x k l xs (ground arith) (ground arith) (ground arith)
        h.1,
  )

  -- Where the neighbours of an entry of the list are.
  pub neighbours :
      (entries : Entries T) (mask slot prev k : ℕ) (e : Entry T) (ks : List ℕ)
      → mem k ks ≡ true
      → Distinct ks
      → entries k ≡ some e
      → Linked entries mask slot prev ks
      → ((e.links.prev ≡ prev) × (first ks ≡ k)) ⊎ (mem e.links.prev ks ≡ true)
  neighbours entries mask slot prev k e [] m d live h = cc
  neighbours entries mask slot prev k e (x ∷ xs) m d live h = elim (Bool-cases (k == x)) [
    | inl same ↦ inl (ground (arith, h.0.live, h.0.before), ground arith)
    | inr other ↦
        inr (ground (arith, neighbours entries mask slot x k e xs (ground arith) d.1 live h.1))
  ]
