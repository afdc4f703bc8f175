-- ===== src/Timer/Register.antt =====
-- `Evented` for `Timer`, src/timer.rs: the registration of a timer over its wheel and over the queue of
-- nodes. The address of the node of the registration is an argument; the job that `register` is given
-- is not used.
use sickle.Base.{
  ℕ, ◌-◌, ◌<◌, ◌≡◌, ◌∙◌, ap, refl, Bool, true, false, panic, if◌then◌else◌, Option, none, some,
  List, arith, Outcome, ok, ◌>>=◌, IoResult, success, failure, ErrorKind,
}
use sickle.Bits.{word}
use sickle.Event.{TokenEntry, noop}
use sickle.Ready.{Ready}
use sickle.PollOpt.{PollOpt}
use sickle.ReadinessState
use sickle.ReadinessState.{
  ReadinessState, token_read_pos, fields, Fields, new-fields, read_pos_field,
}
use sickle.Queue.{Ptr, Queue, Node, token, load, store, new_node}
use sickle.Registration
use sickle.Timer.Defs.{Tick, Inner, Timer}
use sickle.Timer.Ops.{schedule_readiness}
use sickle.Timer.Poll.{next_tick, schedule_next}
use sickle.Timer.Slots.Wheel.{IsOrdered}
use sickle.Timer.Slots.Returns.{kept-IsWheel, next_tick-returns, schedule_next-IsWheel}

-- The queue with the node of a new registration and of its clone.
abbrev registered : Queue → Ptr → ℕ → TokenEntry → Ready → PollOpt → Queue
registered q p poll entry interest opts =
    store (Registration.new q p poll entry interest opts) p (new_node poll entry interest opts 4)

clone-registered :
    (q : Queue) (p : Ptr) (poll : ℕ) (entry : TokenEntry) (interest : Ready) (opts : PollOpt)
    → Registration.clone (Registration.new q p poll entry interest opts) p
      ≡ ok (registered q p poll entry interest opts)
unfolding Registration.new Registration.clone new_node
clone-registered q p poll entry interest opts = ground arith

module _ {T : Type 0} where
  -- What `register` shares with the thread that it spawns.
  abbrev pub spawned : Timer T → Timer T
  spawned t = record t {
    inner = some (record { wakeup_state = word - 1; unparks = 0; readiness = 0 });
  }

  -- The wakeup thread takes a clone of the registration. `spawns` is whether the system starts it;
  -- its handle is unwrapped.
  unfoldable pub register :
      Queue
      → Timer T
      → Ptr
      → (poll : ℕ) → TokenEntry
      → Ready
      → PollOpt
      → (spawns : Bool) → Outcome (IoResult (Queue × Timer T))
  unfolding Registration.new Registration.clone next_tick schedule_next
  register q t p poll entry interest opts spawns = elim t.inner [
    | some inner ↦ ok (failure ErrorKind.other)
    | none ↦ (do
      q1 ← Registration.clone (Registration.new q p poll entry interest opts) p
      if spawns
          then (do tick ← next_tick (spawned t); ok (success (q1, schedule_next (spawned t) tick)))
          else panic)
  ]

  -- The new job does nothing.
  unfoldable pub reregister :
      Queue
      → Timer T
      → Ptr
      → (poll : ℕ) → TokenEntry
      → Ready
      → PollOpt
      → List ReadinessState
      → Outcome (IoResult Queue)
  unfolding Registration.update_with
  reregister q t p poll entry interest opts fails = elim t.inner [
    | none ↦ ok (failure ErrorKind.other)
    | some inner ↦ Registration.update_with q p poll entry interest opts noop fails
  ]

  unfoldable pub deregister :
      Queue → Timer T → Ptr → (poll : ℕ) → List ReadinessState → Outcome (IoResult Queue)
  deregister q t p poll fails = elim t.inner [
    | none ↦ ok (failure ErrorKind.other)
    | some inner ↦ Registration.deregister q p poll fails
  ]

  -- Telling the wakeup thread of a tick changes neither the entries nor that the timer is registered.
  schedule_next-registered :
      (t : Timer T) (tick : Option Tick)
      → ((schedule_next (spawned t) tick).entries ≡ t.entries)
        × ((i : Inner) × ((schedule_next (spawned t) tick).inner ≡ some i))
  unfolding schedule_next schedule_readiness
  schedule_next-registered t none = (refl, (_, refl))
  schedule_next-registered t (some tick) = (refl, (_, refl))

  -- Registering a timer with an ordered wheel that is not registered, for an interest and options of
  -- four bits each, where the system starts the wakeup thread, succeeds and leaves an ordered wheel
  -- with the same entries, and a node of the poll's queue with four references and the token of the
  -- entry, whose word has the given interest and options, no readiness, and is neither queued nor
  -- dropped; a second call fails, whatever it is given.
  pub register-IsOrdered :
      (q : Queue) (t : Timer T) (p : Ptr) (poll : ℕ) (entry : TokenEntry) (interest : Ready)
      (opts : PollOpt)
      → IsOrdered t
      → t.inner ≡ none
      → interest.bits < 16
      → opts.bits < 16
      → (q' : Queue) × (t' : Timer T) × (n : Node) × (register q t p poll entry interest opts true
          ≡ ok (success (q', t')))
        × IsOrdered t'
        × (t'.entries ≡ t.entries)
        × (load q' p ≡ ok n)
        × (n.ref_count ≡ 4)
        × (n.readiness_queue ≡ poll)
        × (token n (token_read_pos n.state) ≡ ok entry)
        × (fields n.state ≡ record {
          readiness = 0;
          interest = interest.bits;
          poll_opt = opts.bits;
          read_pos = 0;
          write_pos = 0;
          queued = false;
          dropped = false;
        })
        × ((other : Ptr) (entry' : TokenEntry) (interest' : Ready) (opts' : PollOpt)
            → register q' t' other poll entry' interest' opts' true ≡ ok (failure ErrorKind.other))
  unfolding register new_node
  register-IsOrdered q t p poll entry interest opts (slots, v) off small small' =
      let v1 = kept-IsWheel t (spawned t) slots v refl refl refl refl refl in
      let (tick, got) = next_tick-returns (spawned t) slots v1 in
      let (same, (inner, on)) = schedule_next-registered t tick in
      let cloned = clone-registered q p poll entry interest opts in
      let word_fields = new-fields interest opts small small' in
      let at_first : token_read_pos (ReadinessState.new interest opts) ≡ 0 =
        read_pos_field (ReadinessState.new interest opts)
        ∙ ap (λ (f : Fields). f.read_pos) word_fields in
      (
        registered q p poll entry interest opts,
        schedule_next (spawned t) tick,
        new_node poll entry interest opts 4,
        ground (arith, off, cloned, got),
        (slots, schedule_next-IsWheel (spawned t) slots tick v1),
        same,
        ground arith,
        refl,
        refl,
        rw at_first refl,
        word_fields,
        λ other entry' interest' opts'. ground (arith, on),
      )
