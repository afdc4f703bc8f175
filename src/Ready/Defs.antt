-- ===== src/Ready/Defs.antt =====
-- `Ready`, the set of readiness flags of src/event_imp.rs, and `UnixReady` of src/sys/unix/ready.rs,
-- which is a `Ready` with the flags that only Unix has. A flag is a bit of a `usize`.
use sickle.Base.{ℕ, Bool, true, false, List, [], ◌∷◌, ◌==◌, if◌then◌else◌}
use sickle.Bits.{bit_and, bit_or, bit_xor, bit_not}
use Prim.Native.String.{String}

abbrev pub readable_bit : ℕ
readable_bit = 0b0_0001

abbrev pub writable_bit : ℕ
writable_bit = 0b0_0010

abbrev pub error_bit : ℕ
error_bit = 0b0_0100

abbrev pub hup_bit : ℕ
hup_bit = 0b0_1000

abbrev pub aio_bit : ℕ
aio_bit = 0b00_0000

abbrev pub lio_bit : ℕ
lio_bit = 0b10_1000

abbrev pub pri_bit : ℕ
pri_bit = 0b100_1000

-- `READY_ALL`
abbrev pub ready_all : ℕ
ready_all = bit_or (bit_or (bit_or (bit_or error_bit hup_bit) aio_bit) lio_bit) pri_bit

pub record Ready : Type 0 where
  pub bits : ℕ

abbrev pub from_usize : ℕ → Ready
from_usize val = record { bits = val }

abbrev pub as_usize : Ready → ℕ
as_usize r = r.bits

abbrev pub empty : Ready
empty = from_usize 0

abbrev pub readable : Ready
readable = from_usize readable_bit

abbrev pub writable : Ready
writable = from_usize writable_bit

abbrev pub error : Ready
error = from_usize error_bit

abbrev pub hup : Ready
hup = from_usize hup_bit

abbrev pub all : Ready
all = from_usize (bit_or (bit_or readable_bit writable_bit) ready_all)

abbrev pub is_empty : Ready → Bool
is_empty r = r.bits == 0

unfoldable pub bitor : Ready → Ready → Ready
bitor r other = from_usize (bit_or r.bits other.bits)

unfoldable pub bitxor : Ready → Ready → Ready
bitxor r other = from_usize (bit_xor r.bits other.bits)

unfoldable pub bitand : Ready → Ready → Ready
bitand r other = from_usize (bit_and r.bits other.bits)

unfoldable pub sub : Ready → Ready → Ready
sub r other = from_usize (bit_and r.bits (bit_not other.bits))

unfoldable pub not : Ready → Ready
not r = from_usize (bit_not r.bits)

unfoldable pub insert : Ready → Ready → Ready
insert r other = record r { bits = bit_or r.bits other.bits }

unfoldable pub remove : Ready → Ready → Ready
remove r other = record r { bits = bit_and r.bits (bit_not other.bits) }

unfoldable pub contains : Ready → Ready → Bool
unfolding bitand
contains r other = (bitand r other).bits == other.bits

unfoldable pub is_readable : Ready → Bool
unfolding contains
is_readable r = contains r readable

unfoldable pub is_writable : Ready → Bool
unfolding contains
is_writable r = contains r writable

unfoldable pub is_error : Ready → Bool
unfolding contains
is_error r = contains r error

unfoldable pub is_hup : Ready → Bool
unfolding contains
is_hup r = contains r hup

abbrev pub priority : Ready
priority = from_usize pri_bit

unfoldable pub is_priority : Ready → Bool
unfolding contains
is_priority r = contains r priority

-- The loop of `Debug::fmt`: the pieces of text written for the flags that are left, where `one` says
-- that a flag has been written.
fmt_flags : Ready → Bool → List (Ready × String) → List String
fmt_flags r one [] = if one then [] else "(empty)" ∷ []
fmt_flags r one ((flag, msg) ∷ rest) =
    let more = fmt_flags r true rest in
    let less = fmt_flags r one rest in
    if contains r flag then (if one then " | " ∷ msg ∷ more else msg ∷ more) else less

pub fmt : Ready → List String
unfolding fmt_flags contains
fmt r =
    fmt_flags r false
      ((readable, "Readable") ∷ (writable, "Writable") ∷ (error, "Error") ∷ (hup, "HUP") ∷ [])
