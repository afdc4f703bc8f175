-- ===== src/Selector/Defs.antt =====
-- The epoll selector of src/sys/unix/epoll.rs. The kernel is not part of the program: whether
-- `epoll_ctl` accepts a call and what `epoll_wait` returns are arguments. The flags are those of
-- <sys/epoll.h>, in a 32-bit word.
use sickle.Base.{
  ℕ, zero, suc, ◌+◌, ◌-◌, ◌%◌, ◌^◌, Bool, true, false, not, Option, none, some, List, [], ◌∷◌, ◌++◌,
  ◌==◌, min, if◌then◌else◌, get_elem?, length, update, IoResult, success, failure, ErrorKind,
}
use sickle.Bits.{bit_and, bit_or}
use sickle.Duration.{Duration, millis}
use sickle.Event.{TokenType, TokenEntry, ttype_eq, Event, Job, JobEntry}
use sickle.Ready
use sickle.Ready.{Ready}
use sickle.PollOpt
use sickle.PollOpt.{PollOpt}

abbrev pub epollin : ℕ
epollin = 0x1

abbrev pub epollpri : ℕ
epollpri = 0x2

abbrev pub epollout : ℕ
epollout = 0x4

abbrev pub epollerr : ℕ
epollerr = 0x8

abbrev pub epollhup : ℕ
epollhup = 0x10

abbrev pub epolloneshot : ℕ
epolloneshot = 2 ^ 30

abbrev pub epollet : ℕ
epollet = 2 ^ 31

-- `libc::epoll_event`
pub record EpollEvent : Type 0 where
  pub events : ℕ
  pub u64 : ℕ

-- `if flag { kind |= bit }`
abbrev pub add_if : Bool → ℕ → ℕ → ℕ
add_if flag bit kind = if flag then bit_or kind bit else kind

unfoldable pub ioevent_to_epoll : Ready → PollOpt → ℕ
unfolding Ready.is_readable Ready.is_writable Ready.is_priority PollOpt.is_edge PollOpt.is_level
    PollOpt.is_oneshot
ioevent_to_epoll interest opts =
    let k1 = add_if (Ready.is_readable interest) epollin 0 in
    let k2 = add_if (Ready.is_writable interest) epollout k1 in
    let k3 = add_if (Ready.is_priority interest) epollpri k2 in
    let k4 = add_if (PollOpt.is_edge opts) epollet k3 in
    let k5 = if PollOpt.is_level opts then bit_and k4 (2 ^ 32 - 1 - epollet) else k4 in
    add_if (PollOpt.is_oneshot opts) epolloneshot k5

abbrev pub has : ℕ → ℕ → Bool
has epoll flag = not (bit_and epoll flag == 0)

-- `if flag { kind = kind | ready }`
unfoldable pub join_if : Bool → Ready → Ready → Ready
unfolding Ready.bitor
join_if flag ready kind = if flag then Ready.bitor kind ready else kind

-- The closure of `get_ready`.
unfoldable pub ready_of : ℕ → Ready
unfolding join_if Ready.bitor
ready_of epoll =
    let k1 = join_if (has epoll epollin) Ready.readable Ready.empty in
    let k2 = join_if (has epoll epollout) Ready.writable k1 in
    let k3 =
      if has epoll epollpri
      then Ready.bitor (Ready.bitor k2 Ready.readable) Ready.priority
      else k2 in
    let k4 = join_if (has epoll epollerr) Ready.error k3 in
    join_if (has epoll epollhup) Ready.hup k4

-- `capacity` is that of both vectors.
pub record Events : Type 0 where
  pub events : List EpollEvent
  pub entries : List JobEntry
  pub capacity : ℕ

-- `Events::with_capacity`, `len`, `is_empty`, `get_ready`, `get_mut` and `clear`
abbrev pub with_capacity : ℕ → Events
with_capacity u = record { events = []; entries = []; capacity = u }

abbrev pub len : Events → ℕ
len evts = length evts.entries

abbrev pub is_empty : Events → Bool
is_empty evts = length evts.entries == 0

unfoldable pub get_ready : Events → ℕ → Option Ready
unfolding ready_of
get_ready evts idx = elim (get_elem? evts.events idx) [
  | none ↦ none
  | some e ↦ some (ready_of e.events)
]

abbrev pub get_mut : Events → ℕ → Option JobEntry
get_mut evts idx = get_elem? evts.entries idx

abbrev pub clear : Events → Events
clear evts = record evts { events = []; entries = [] }

unfoldable pub push_event : Events → Event → Job → Events
unfolding ioevent_to_epoll
push_event evts event job = record evts {
  events =
      evts.events
      ++ (record { events = ioevent_to_epoll event.kind PollOpt.empty; u64 = event.token.token.id }
          ∷ []);
  entries =
      evts.entries ++ (record { token_entry = event.token; ready = Ready.empty; job = job } ∷ []);
}

-- `kernel` is the interest list of the epoll instance: for a descriptor, what `epoll_ctl` was last
-- given.
pub record Selector : Type 0 where
  pub id : ℕ
  pub events_map : ℕ → Option JobEntry
  pub kernel : ℕ → Option EpollEvent

-- `Selector::new`, where `last` is the value of `NEXT_ID` before.
abbrev pub new : ℕ → Selector
new last = record { id = last + 1; events_map = λ _. none; kernel = λ _. none }

-- `accepted` is the answer of `epoll_ctl`.
unfoldable pub register :
    Selector
    → ℕ
    → TokenEntry
    → Ready
    → PollOpt
    → Job
    → (accepted : Bool) → IoResult (Unit {0}) × Selector
unfolding ioevent_to_epoll
register s fd token interests opts job accepted =
    let info : EpollEvent = record { events = ioevent_to_epoll interests opts; u64 = fd } in
    let entry : JobEntry = record { token_entry = token; job = job; ready = Ready.empty } in
    let s1 : Selector = record s { events_map = update s.events_map fd (some entry) } in
    if accepted
    then (success tt, record s1 { kernel = update s.kernel fd (some info) })
    else (failure ErrorKind.other, s1)

unfoldable pub reregister :
    Selector → ℕ → TokenEntry → Ready → PollOpt → (accepted : Bool) → IoResult (Unit {0}) × Selector
unfolding ioevent_to_epoll
reregister s fd token interests opts accepted =
    let info : EpollEvent = record {
      events = ioevent_to_epoll interests opts;
      u64 = token.token.id;
    } in
    if accepted
    then (success tt, record s { kernel = update s.kernel fd (some info) })
    else (failure ErrorKind.other, s)

unfoldable pub deregister : Selector → ℕ → (accepted : Bool) → IoResult (Unit {0}) × Selector
deregister s fd accepted =
    if accepted
    then (
      success tt,
      record s { kernel = update s.kernel fd none; events_map = update s.events_map fd none },
    )
    else (failure ErrorKind.other, s)

-- What the loop of `select` carries: the map, whose entries remember the readiness, the jobs to run,
-- and the index of the event of the awakener.
pub record Scan : Type 0 where
  pub map : ℕ → Option JobEntry
  pub entries : List JobEntry
  pub notify : Option ℕ

-- `as usize as i32`: the low 32 bits of the event's data.
abbrev pub fd_of : EpollEvent → ℕ
fd_of e = e.u64 % 2 ^ 32

-- One event.
unfoldable pub scan_event : ℕ → EpollEvent → Scan → Scan
unfolding ready_of
scan_event i e scan = elim (scan.map (fd_of e)) [
  | none ↦ scan
  | some entry ↦
      let ready_entry : JobEntry = record entry { ready = ready_of e.events } in
      if ttype_eq entry.token_entry.ttype TokenType.notify_event
      then record scan { notify = some i }
      else record scan {
        map = update scan.map (fd_of e) (some ready_entry);
        entries = scan.entries ++ (ready_entry ∷ []);
      }
]

unfoldable pub scan_events : ℕ → List EpollEvent → Scan → Scan
unfolding scan_event
scan_events i [] scan = scan
scan_events i (e ∷ es) scan = scan_events (i + 1) es (scan_event i e scan)

-- `Vec::remove`
abbrev pub remove_at : List EpollEvent → ℕ → List EpollEvent
remove_at [] i = []
remove_at (e ∷ es) zero = es
remove_at (e ∷ es) (suc i) = e ∷ remove_at es i

-- The timeout that `epoll_wait` is given, with `none` for -1.
unfoldable pub timeout_ms : Option Duration → Option ℕ
timeout_ms none = none
timeout_ms (some to) = some (min (millis to) (2 ^ 31 - 1))

-- `select`, where `waited` is what `epoll_wait` returned.
unfoldable pub select :
    Selector → Events → (waited : IoResult (List EpollEvent)) → IoResult Bool × Selector × Events
unfolding scan_events
select s evts (failure e) = (failure e, s, clear evts)
select s evts (success es) =
    let scan = scan_events 0 es (record { map = s.events_map; entries = []; notify = none }) in
    let s1 : Selector = record s { events_map = scan.map } in
    elim scan.notify [
      | none ↦ (success false, s1, record evts { events = es; entries = scan.entries })
      | some i ↦ (success true, s1, record evts { events = remove_at es i; entries = scan.entries })
    ]
