-- ===== src/Selector/Tests.antt =====
-- A selector with one descriptor.
use sickle.Base.{
  ◌≡◌, ◌%◌, refl, true, false, none, some, List, [], ◌∷◌, arith, success, failure, ErrorKind,
}
use sickle.Event.{TokenType, TokenEntry}
use sickle.Ready
use sickle.Ready.{Ready}
use sickle.PollOpt.{PollOpt}
use sickle.Selector.Defs.{
  EpollEvent, Selector, new, ioevent_to_epoll, ready_of, register, deregister, reregister, select,
  with_capacity,
}
use sickle.Selector.Laws.{
  ready_of-ioevent_to_epoll, register-deregister, register-refused, reregister-loses,
}

abbrev fresh : Selector
fresh = new 0

abbrev socket : TokenEntry
socket = record { ttype = TokenType.socket_event; token = record { id = 40 } }

abbrev both : Ready
both = record { bits = 3 }

abbrev edge_oneshot : PollOpt
edge_oneshot = record { bits = 5 }

ready_of-ioevent_to_epoll_example : (ready_of (ioevent_to_epoll both edge_oneshot)).bits ≡ 3 % 4
ready_of-ioevent_to_epoll_example =
    ready_of-ioevent_to_epoll both edge_oneshot (omega arith) (omega arith)

register-deregister_example :
    let s1 = (register fresh 7 socket both edge_oneshot 9 true).1 in
    let s2 = (deregister s1 7 true).1 in
    (s1.events_map 7 ≡ some (record { token_entry = socket; job = 9; ready = Ready.empty }))
    × (s1.kernel 7 ≡ some (record { events = ioevent_to_epoll both edge_oneshot; u64 = 7 }))
    × (s1.events_map 8 ≡ none)
    × (s2.events_map 7 ≡ none)
    × (s2.kernel 7 ≡ none)
    × (s2.events_map 8 ≡ none)
    × (s2.kernel 8 ≡ none)
register-deregister_example = register-deregister fresh 7 8 socket both edge_oneshot 9 (omega arith)

register-refused_example :
    let (r, s1) = register fresh 7 socket both edge_oneshot 9 false in
    ((e : ErrorKind) × (r ≡ failure e))
    × (s1.events_map 7 ≡ some (record { token_entry = socket; job = 9; ready = Ready.empty }))
    × (s1.kernel ≡ fresh.kernel)
    × (s1.events_map 8 ≡ none)
register-refused_example = register-refused fresh 7 8 socket both edge_oneshot 9 (omega arith)

-- Two events of the descriptor that was registered again.
abbrev two_events : List EpollEvent
two_events = record { events = 1; u64 = 40 } ∷ record { events = 5; u64 = 40 } ∷ []

abbrev listening : Selector
listening = (register fresh 7 socket both edge_oneshot 9 true).1

reregister-loses_example :
    let s1 = (reregister listening 7 socket both edge_oneshot true).1 in
    let (r, _, evts1) = select s1 (with_capacity 8) (success two_events) in
    (s1.kernel 7 ≡ some (record { events = ioevent_to_epoll both edge_oneshot; u64 = 40 }))
    × (r ≡ success false)
    × (evts1.entries ≡ [])
unfolding register
reregister-loses_example =
    reregister-loses listening 7 socket both edge_oneshot (with_capacity 8) two_events refl
      (refl, (refl, tt))
