-- ===== src/Queue/Nodes.antt =====
-- The nodes that `ReadinessQueue::poll` of src/poll.rs passes, and their events.
use sickle.Base.{
  ◌≡◌, ◌≢◌, refl, sym, inl, inr, false, List, [], ◌∷◌, ◌++◌, ◌==◌, ltb, All, arith, length,
  Bool-cases,
}
use sickle.Event.{Event, Job, noop}
use sickle.Queue.Defs.{Ptr, null, Node, Queue}
use sickle.Selector.{Events, push_event}
use sickle.Queue.Links.{Apart}
use sickle.Queue.Fifo.{IsReal}
use sickle.Queue.Frame.{Has, Frames, FramesBut}
use sickle.Queue.Deliver.{events_of, stays, IsNode, delivered, again, mark}

abbrev pub IsFull : Events → Type 0
IsFull dst = ltb (length dst.entries) dst.capacity ≡ false

pub delivered-append :
    (dst : Events) (xs ys : List (Event × Job))
    → delivered dst (xs ++ ys) ≡ delivered (delivered dst xs) ys
delivered-append dst [] ys = refl
delivered-append dst (x ∷ xs) ys = delivered-append (push_event dst x.0 x.1) xs ys

-- The nodes that wait, by their addresses, with their contents in `c`.
module _ (c : Ptr → Node) where
  -- The events for the nodes, in their order.
  unfoldable pub events : List Ptr → List (Event × Job)
  events [] = []
  events (p ∷ ps) = events_of (c p) ++ events ps

  -- Those that are handed in again.
  unfoldable pub staying : List Ptr → List Ptr
  staying [] = []
  staying (p ∷ ps) = again p (c p) ++ staying ps

  abbrev pub Holds : Queue → Ptr → Type 0
  Holds q p = Has q p (c p) × IsNode (c p)

  pub Holds-frames :
      (q q' : Queue) (p : Ptr) (ps : List Ptr)
      → FramesBut p q q'
      → Apart p ps
      → All (Holds q) ps
      → All (Holds q') ps
  Holds-frames q q' p [] frames apart h = tt
  Holds-frames q q' p (x ∷ ps) frames apart h = (
    (frames x (c x) (λ e. apart.0 (sym e)) h.0.0, h.0.1),
    Holds-frames q q' p ps frames apart.1 h.1,
  )

-- A node whose job has been handed out and replaced by one that does nothing.
abbrev pub IsSpent : Queue → Ptr → Type 0
IsSpent q p = (m : Node) × Has q p m × (m.job ≡ noop)

pub IsSpent-frames :
    (q q' : Queue) (p : Ptr) (ps : List Ptr)
    → FramesBut p q q'
    → Apart p ps
    → All (IsSpent q) ps
    → All (IsSpent q') ps
IsSpent-frames q q' p [] frames apart h = tt
IsSpent-frames q q' p (x ∷ ps) frames apart (h, hs) =
    let (m, has, spent) = h in
    ((m, frames x m (λ e. apart.0 (sym e)) has, spent), IsSpent-frames q q' p ps frames apart.1 hs)

pub IsSpent-All :
    (q q' : Queue) (ps : List Ptr) → Frames q q' → All (IsSpent q) ps → All (IsSpent q') ps
IsSpent-All q q' [] frames h = tt
IsSpent-All q q' (x ∷ ps) frames (h, hs) =
    let (m, has, spent) = h in ((m, frames x m has, spent), IsSpent-All q q' ps frames hs)

-- The mark at which the loop stops, by the nodes that were handed in again.
unfoldable pub until_of : List Ptr → Ptr
until_of [] = null
until_of (x ∷ xs) = x

pub mark_lem :
    (back : List Ptr) (p : Ptr) (n : Node)
    → All IsReal back
    → mark (until_of back) p n ≡ until_of (back ++ again p n)
unfolding until_of
mark_lem [] p n real = elim (Bool-cases (stays n)) [ inl e ↦ rw e refl | inr e ↦ rw e refl ]
mark_lem (x ∷ back) p n real =
    let there : (x == null) ≡ false = ground (arith, real.0) in
    elim (Bool-cases (stays n)) [ inl e ↦ rw (e, there) refl | inr e ↦ rw e refl ]

pub until-ne : (back : List Ptr) (p : Ptr) → IsReal p → Apart p back → p ≢ until_of back
unfolding until_of
until-ne [] p real apart = ground (arith, real)
until-ne (x ∷ back) p real apart = apart.0
