-- ===== src/Sockets/Defs.antt =====
-- `TcpStream` and `TcpListener` of src/net/tcp.rs over those of src/sys/unix/tcp.rs, `EventedFd` of
-- src/sys/unix/eventedfd.rs, and `set_nonblock` of src/sys/unix/io.rs. A socket is its descriptor, and
-- what the system calls return is given; so are the answers of the net2 crate. The getters and setters
-- of the two types only forward to the standard library and are left out.
use sickle.Base.{
  ℕ, ◌-◌, ◌^◌, Bool, ◌==◌, if◌then◌else◌, IoResult, success, failure, ErrorKind, Outcome, ok, panic,
}
use sickle.Bits.{bit_or}
use sickle.Event.{TokenEntry, Job}
use sickle.Ready.{Ready}
use sickle.PollOpt.{PollOpt}
use sickle.Selector
use sickle.Selector.{Selector}
use sickle.Poll.{SelectorId, associate_selector}

-- `?` of the source
infixl 5 ◌>>=◌
abbrev ◌>>=◌ {ℓ κ} : {A : Type ℓ} {B : Type κ} → IoResult A → (A → IoResult B) → IoResult B
success a >>= f = f a
failure e >>= f = failure e

-- `-1` of a C `int`
abbrev pub minus_one : ℕ
minus_one = 2 ^ 32 - 1

unfoldable pub cvt : ℕ → IoResult ℕ
cvt t = if t == minus_one then failure ErrorKind.other else success t

abbrev pub o_nonblock : ℕ
o_nonblock = 0x800

-- `flags` is what `F_GETFL` returns, and `setfl` what `F_SETFL` returns for its argument.
unfoldable pub set_nonblock : (flags : ℕ) → (setfl : ℕ → ℕ) → IoResult (Unit {0})
unfolding cvt
set_nonblock flags setfl = do _ ← cvt (setfl (bit_or flags o_nonblock)); success tt

-- `EventedFd`
unfoldable pub fd_register :
    ℕ
    → Selector
    → TokenEntry
    → Ready
    → PollOpt
    → Job
    → (accepted : Bool) → IoResult (Unit {0}) × Selector
unfolding Selector.register
fd_register fd selector token interest opts job accepted =
    Selector.register selector fd token interest opts job accepted

unfoldable pub fd_reregister :
    ℕ → Selector → TokenEntry → Ready → PollOpt → (accepted : Bool) → IoResult (Unit {0}) × Selector
unfolding Selector.reregister
fd_reregister fd selector token interest opts accepted =
    Selector.reregister selector fd token interest opts accepted

unfoldable pub fd_deregister : ℕ → Selector → (accepted : Bool) → IoResult (Unit {0}) × Selector
unfolding Selector.deregister
fd_deregister fd selector accepted = Selector.deregister selector fd accepted

pub record TcpStream : Type 0 where
  pub sys : ℕ
  pub selector_id : SelectorId

pub record TcpListener : Type 0 where
  pub sys : ℕ
  pub selector_id : SelectorId

-- `SelectorId::new`
abbrev pub no_selector : SelectorId
no_selector = record { id = 0 }

-- What `connect` returns; `in_progress` is the error `EINPROGRESS`.
pub data Connecting : Type 0 where
  connected : Connecting
  in_progress : Connecting
  refused : ErrorKind → Connecting

-- `sys::TcpStream::connect`
unfoldable pub sys_connect : (fd : ℕ) → (nonblock : IoResult (Unit {0})) → Connecting → IoResult ℕ
sys_connect fd nonblock answer = do
  _ ← nonblock
  elim answer [ connected ↦ success fd | in_progress ↦ success fd | refused e ↦ failure e ]

-- `connect_stream`, which sets the flag itself before `sys::TcpStream::connect` does.
unfoldable pub connect_stream :
    (fd : ℕ) → (nonblock nonblock_again : IoResult (Unit {0})) → Connecting → IoResult TcpStream
unfolding sys_connect
connect_stream fd nonblock nonblock_again answer = do
  _ ← nonblock
  sys ← sys_connect fd nonblock_again answer
  success (record { sys = sys; selector_id = no_selector })

-- `connect`, where `socket` is the answer of `TcpBuilder` for the kind of address.
unfoldable pub connect :
    (socket : IoResult ℕ)
    → (nonblock nonblock_again : IoResult (Unit {0})) → Connecting
    → IoResult TcpStream
unfolding connect_stream
connect socket nonblock nonblock_again answer = do
  fd ← socket
  connect_stream fd nonblock nonblock_again answer

unfoldable pub from_stream : (fd : ℕ) → (nonblock : IoResult (Unit {0})) → IoResult TcpStream
from_stream fd nonblock = do _ ← nonblock; success (record { sys = fd; selector_id = no_selector })

-- `try_clone`, where `dup` is the new descriptor.
unfoldable pub try_clone : TcpStream → (dup : IoResult ℕ) → IoResult TcpStream
try_clone s dup = do fd ← dup; success (record s { sys = fd })

-- The `Evented` impl of `TcpStream`.
unfoldable pub register :
    TcpStream
    → Selector
    → TokenEntry
    → Ready
    → PollOpt
    → Job
    → (accepted : Bool) → IoResult (Unit {0}) × TcpStream × Selector
unfolding associate_selector fd_register
register s selector token interest opts job accepted =
    let (r, id) = associate_selector s.selector_id selector.id in
    let s1 : TcpStream = record s { selector_id = id } in
    elim r [
      | failure e ↦ (failure e, s1, selector)
      | success _ ↦
          let (r1, selector1) = fd_register s.sys selector token interest opts job accepted in
          (r1, s1, selector1)
    ]

unfoldable pub reregister :
    TcpStream
    → Selector
    → TokenEntry
    → Ready
    → PollOpt
    → (accepted : Bool) → IoResult (Unit {0}) × TcpStream × Selector
unfolding fd_reregister
reregister s selector token interest opts accepted =
    let (r, selector1) = fd_reregister s.sys selector token interest opts accepted in
    (r, s, selector1)

unfoldable pub deregister :
    TcpStream → Selector → (accepted : Bool) → IoResult (Unit {0}) × TcpStream × Selector
unfolding fd_deregister
deregister s selector accepted =
    let (r, selector1) = fd_deregister s.sys selector accepted in (r, s, selector1)

-- `sys::TcpListener::new` and `from_std`
unfoldable pub from_std : (fd : ℕ) → (nonblock : IoResult (Unit {0})) → IoResult TcpListener
from_std fd nonblock = do _ ← nonblock; success (record { sys = fd; selector_id = no_selector })

-- `TcpListener::bind`; the steps on the socket may each fail.
unfoldable pub bind :
    (socket : IoResult ℕ)
    → (reuse_address reuse_port bound listening nonblock : IoResult (Unit {0}))
    → IoResult TcpListener
unfolding from_std
bind socket reuse_address reuse_port bound listening nonblock = do
  fd ← socket
  _ ← reuse_address
  _ ← reuse_port
  _ ← bound
  _ ← listening
  from_std fd nonblock

-- `TcpListener::new` unwraps.
unfoldable pub listen :
    (socket : IoResult ℕ)
    → (reuse_address reuse_port bound listening nonblock : IoResult (Unit {0}))
    → Outcome TcpListener
unfolding bind
listen socket reuse_address reuse_port bound listening nonblock =
    elim (bind socket reuse_address reuse_port bound listening nonblock) [
      | success l ↦ ok l
      | failure e ↦ panic
    ]

-- `accept`, where `accepted` is the descriptor and the address of the new stream.
unfoldable pub accept :
    TcpListener
    → (accepted : IoResult (ℕ × ℕ)) → (nonblock : IoResult (Unit {0})) → IoResult (TcpStream × ℕ)
unfolding from_stream
accept l accepted nonblock = do
  (fd, addr) ← accepted
  s ← from_stream fd nonblock
  success (s, addr)

-- The `Evented` impl of `TcpListener`.
unfoldable pub register_listener :
    TcpListener
    → Selector
    → TokenEntry
    → Ready
    → PollOpt
    → Job
    → (accepted : Bool) → IoResult (Unit {0}) × TcpListener × Selector
unfolding associate_selector fd_register
register_listener s selector token interest opts job accepted =
    let (r, id) = associate_selector s.selector_id selector.id in
    let s1 : TcpListener = record s { selector_id = id } in
    elim r [
      | failure e ↦ (failure e, s1, selector)
      | success _ ↦
          let (r1, selector1) = fd_register s.sys selector token interest opts job accepted in
          (r1, s1, selector1)
    ]
