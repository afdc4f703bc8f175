-- ===== src/PollOpt.antt =====
-- `PollOpt`, the set of polling options of src/event_imp.rs.
use sickle.Base.{ℕ, Bool, ◌==◌}
use sickle.Bits.{bit_and, bit_or, bit_xor, bit_not}

pub record PollOpt : Type 0 where
  pub bits : ℕ

abbrev pub opt_from_usize : ℕ → PollOpt
opt_from_usize opt = record { bits = opt }

abbrev pub opt_as_usize : PollOpt → ℕ
opt_as_usize opt = opt.bits

abbrev pub empty : PollOpt
empty = opt_from_usize 0

abbrev pub edge : PollOpt
edge = opt_from_usize 0b0001

abbrev pub level : PollOpt
level = opt_from_usize 0b0010

abbrev pub oneshot : PollOpt
oneshot = opt_from_usize 0b0100

abbrev pub urgent : PollOpt
urgent = opt_from_usize 0b1000

unfoldable pub bitor : PollOpt → PollOpt → PollOpt
bitor opt other = opt_from_usize (bit_or opt.bits other.bits)

unfoldable pub bitxor : PollOpt → PollOpt → PollOpt
bitxor opt other = opt_from_usize (bit_xor opt.bits other.bits)

unfoldable pub bitand : PollOpt → PollOpt → PollOpt
bitand opt other = opt_from_usize (bit_and opt.bits other.bits)

unfoldable pub sub : PollOpt → PollOpt → PollOpt
sub opt other = opt_from_usize (bit_and opt.bits (bit_not other.bits))

unfoldable pub not : PollOpt → PollOpt
not opt = opt_from_usize (bit_not opt.bits)

pub all : PollOpt
unfolding bitor
all = bitor (bitor edge level) oneshot

unfoldable pub contains : PollOpt → PollOpt → Bool
unfolding bitand
contains opt other = (bitand opt other).bits == other.bits

unfoldable pub insert : PollOpt → PollOpt → PollOpt
insert opt other = record opt { bits = bit_or opt.bits other.bits }

unfoldable pub remove : PollOpt → PollOpt → PollOpt
remove opt other = record opt { bits = bit_and opt.bits (bit_not other.bits) }

unfoldable pub is_edge : PollOpt → Bool
unfolding contains
is_edge opt = contains opt edge

unfoldable pub is_level : PollOpt → Bool
unfolding contains
is_level opt = contains opt level

unfoldable pub is_oneshot : PollOpt → Bool
unfolding contains
is_oneshot opt = contains opt oneshot

unfoldable pub is_urgent : PollOpt → Bool
unfolding contains
is_urgent opt = contains opt urgent
