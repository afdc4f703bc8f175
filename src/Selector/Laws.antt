-- ===== src/Selector/Laws.antt =====
-- Laws of the selector of src/sys/unix/epoll.rs.
use sickle.Base.{
  ℕ, zero, suc, ◌+◌, ◌%◌, ◌^◌, ◌<◌, ◌≡◌, ◌≢◌, refl, Bool, true, false, ◌&&◌, none, some, ◌==◌,
  ==_iff, arith, List, [], ◌∷◌, All, ap, ErrorKind, success, failure,
}
use sickle.Event.{TokenEntry, Job}
use sickle.Ready
use sickle.Ready.{Ready}
use sickle.PollOpt.{PollOpt}
use sickle.Selector.Defs.{
  EpollEvent, ioevent_to_epoll, ready_of, Selector, register, reregister, deregister, Scan,
  scan_event, scan_events, select, Events,
}

-- The test succeeds on all numbers under a bound.
succeeds_under : (test : ℕ → Bool) → (bound : ℕ) → Bool
succeeds_under test zero = true
succeeds_under test (suc m) = succeeds_under test m && test m

succeeds_at :
    (test : ℕ → Bool) (bound k : ℕ) → succeeds_under test bound ≡ true → k < bound → test k ≡ true
unfolding succeeds_under
succeeds_at test zero k all_hold small = absurd (omega arith)
succeeds_at test (suc m) k all_hold small = ground (arith, succeeds_at test m k)

abbrev flags : ℕ → Ready
flags r = record { bits = r }

abbrev options : ℕ → PollOpt
options o = record { bits = o }

abbrev passes : ℕ → ℕ → Bool
passes r o = (ready_of (ioevent_to_epoll (flags r) (options o))).bits == r % 4

round_trip_table : succeeds_under (λ r. succeeds_under (passes r) 16) 16 ≡ true
unfolding succeeds_under ready_of ioevent_to_epoll
round_trip_table = refl

-- An event that reports just the flags which an interest asks for is read back as the readable and the
-- writable flag of that interest; the options and the other flags add nothing.
pub ready_of-ioevent_to_epoll :
    (interest : Ready) (opts : PollOpt)
    → interest.bits < 16
    → opts.bits < 16
    → (ready_of (ioevent_to_epoll interest opts)).bits ≡ interest.bits % 4
ready_of-ioevent_to_epoll interest opts h g =
    let row = succeeds_at (λ r. succeeds_under (passes r) 16) 16 interest.bits round_trip_table h in
    (==_iff _ _).0 (succeeds_at (passes interest.bits) 16 opts.bits row g)

-- After an accepted `register` the map and the kernel know the descriptor, by its own number; another
-- descriptor is as before. A `deregister` that is accepted takes the descriptor out of both, again
-- leaving the others.
pub register-deregister :
    (s : Selector) (fd other : ℕ) (token : TokenEntry) (interest : Ready) (opts : PollOpt) (j : Job)
    → other ≢ fd
    → let s1 = (register s fd token interest opts j true).1 in
      let s2 = (deregister s1 fd true).1 in
      (s1.events_map fd ≡ some (record { token_entry = token; job = j; ready = Ready.empty }))
      × (s1.kernel fd ≡ some (record { events = ioevent_to_epoll interest opts; u64 = fd }))
      × (s1.events_map other ≡ s.events_map other)
      × (s2.events_map fd ≡ none)
      × (s2.kernel fd ≡ none)
      × (s2.events_map other ≡ s.events_map other)
      × (s2.kernel other ≡ s.kernel other)
unfolding register deregister
register-deregister s fd other token interest opts j h = ground arith

-- A `register` that `epoll_ctl` refuses returns an error, and leaves the new entry in the map, while
-- what the kernel knows of every descriptor is as before, as is the map for every other descriptor.
pub register-refused :
    (s : Selector) (fd other : ℕ) (token : TokenEntry) (interest : Ready) (opts : PollOpt) (j : Job)
    → other ≢ fd
    → let (r, s1) = register s fd token interest opts j false in
      ((e : ErrorKind) × (r ≡ failure e))
      × (s1.events_map fd ≡ some (record { token_entry = token; job = j; ready = Ready.empty }))
      × (s1.kernel ≡ s.kernel)
      × (s1.events_map other ≡ s.events_map other)
unfolding register
register-refused s fd other token interest opts j ne =
    ((ErrorKind.other, refl), ground arith, refl, ground (arith, ne))

scan_event-unknown :
    (i : ℕ) (e : EpollEvent) (scan : Scan)
    → scan.map (e.u64 % 2 ^ 32) ≡ none
    → scan_event i e scan ≡ scan
unfolding scan_event
scan_event-unknown i e scan h = rw (h, scan_event)

-- Events whose data names no entry of the map change nothing in the scan.
scan_events-unknown :
    (es : List EpollEvent) (u i : ℕ) (scan : Scan)
    → scan.map (u % 2 ^ 32) ≡ none
    → All (λ e. e.u64 ≡ u) es
    → scan_events i es scan ≡ scan
unfolding scan_events
scan_events-unknown [] u i scan h all = refl
scan_events-unknown (e ∷ es) u i scan h (at, all) =
    let unknown : scan.map (e.u64 % 2 ^ 32) ≡ none = rw at h in
    rw (scan_event-unknown i e scan unknown) (scan_events-unknown es u (i + 1) scan h all)

-- `reregister` loses the events of a descriptor: where no entry of the map stands under the low 32 bits
-- of the token, after an accepted `reregister` the kernel has the token as the data of the
-- descriptor, and a `select` to which `epoll_wait` returns any events with that data, with any
-- flags, succeeds with no entry, so no job is run for them.
pub reregister-loses :
    (s : Selector) (fd : ℕ) (token : TokenEntry) (interest : Ready) (opts : PollOpt) (evts : Events)
    (es : List EpollEvent)
    → s.events_map (token.token.id % 2 ^ 32) ≡ none
    → All (λ e. e.u64 ≡ token.token.id) es
    → let s1 = (reregister s fd token interest opts true).1 in
      let (r, _, evts1) = select s1 evts (success es) in
      (s1.kernel fd
        ≡ some (record { events = ioevent_to_epoll interest opts; u64 = token.token.id }))
      × (r ≡ success false)
      × (evts1.entries ≡ [])
unfolding reregister select
reregister-loses s fd token interest opts evts es h all =
    let scan : Scan = record { map = s.events_map; entries = []; notify = none } in
    let same : scan_events 0 es scan ≡ scan = scan_events-unknown es token.token.id 0 scan h all in
    (ground arith, rw (same, select) refl, rw (same, select) (ap (λ (x : Scan). x.entries) same))
