-- ===== src/Ready/Laws.antt =====
-- Inserting and removing flags in a `Ready`.
use sickle.Base.{◌^◌, ◌<◌, ◌≡◌, true, arith}
use sickle.Bits.{bit_and, or-and_absorb, and-not-and, and-not-and_disjoint, or-and_disjoint}
use sickle.Ready.Defs.{Ready, insert, remove, contains}

-- After `insert` the inserted flags are contained; after `remove` none of the removed flags is left;
-- and both keep whether any other set `flags` of flags, which shares no flag with `other`, is
-- contained. The sets are machine words.
pub insert-remove_lem :
    (r other flags : Ready)
    → other.bits < 2 ^ 64
    → flags.bits < 2 ^ 64
    → bit_and flags.bits other.bits ≡ 0
    → (contains (insert r other) other ≡ true)
      × (bit_and (remove r other).bits other.bits ≡ 0)
      × (contains (insert r other) flags ≡ contains r flags)
      × (contains (remove r other) flags ≡ contains r flags)
unfolding insert remove contains
insert-remove_lem r other flags fits fits' apart = (
  ground (arith, or-and_absorb 64 r.bits other.bits fits),
  and-not-and 64 r.bits other.bits fits,
  rw (or-and_disjoint 64 r.bits other.bits flags.bits fits' apart),
  rw (and-not-and_disjoint 64 r.bits other.bits flags.bits fits fits' apart),
)
