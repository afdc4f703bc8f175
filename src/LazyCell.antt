-- ===== src/LazyCell.antt =====
-- `LazyCell` of src/lazycell.rs. A cell is an `Option`; a method through `&self` that may fill it
-- returns the new cell. `panic` is the panic of the source.
use sickle.Base.{
  Bool, true, false, Option, none, some, Outcome, ok, panic, ◌>>=◌, unwrap, if◌then◌else◌, ◌≡◌,
  refl,
}

pub record LazyCell (T : Type 0) : Type 0 where
  pub inner : Option T

-- A `&mut T` into a cell: the value it shows, and the cell after a value is stored through it.
pub record MutRef (T : Type 0) : Type 0 where
  pub now : T
  pub store : T → LazyCell T

-- `Result<A, E>`
pub data Result (A E : Type 0) : Type 0 where
  value : A → Result A E
  error : E → Result A E

module _ {T : Type 0} where
  abbrev pub is_some : Option T → Bool
  is_some none = false
  is_some (some _) = true

  abbrev pub cell : Option T → LazyCell T
  cell o = record { inner = o }

  abbrev pub new : LazyCell T
  new = cell none

  -- `Err` hands the value back.
  unfoldable pub fill : LazyCell T → T → Result (Unit {0}) T × LazyCell T
  fill c v = if is_some c.inner then (error v, c) else (value tt, record c { inner = some v })

  unfoldable pub replace : LazyCell T → T → Option T × LazyCell T
  replace c v = (c.inner, record c { inner = some v })

  abbrev pub borrow : LazyCell T → Option T
  borrow c = c.inner

  unfoldable pub filled : LazyCell T → Bool
  filled c = is_some (borrow c)

  -- The end of the `borrow_with` family: fill with the closure's value, where `c` is the cell that the
  -- closure left.
  unfoldable pub fill_and_borrow : LazyCell T → T → Outcome (T × LazyCell T)
  unfolding fill
  fill_and_borrow c v =
      let (r, c1) = fill c v in
      elim r [ error _ ↦ panic | value _ ↦ (do w ← unwrap (borrow c1); ok (w, c1)) ]

  -- A closure may use the cell itself: `f` takes the cell and returns it with its value.
  unfoldable pub borrow_with : LazyCell T → (LazyCell T → T × LazyCell T) → Outcome (T × LazyCell T)
  unfolding fill_and_borrow
  borrow_with c f = elim (borrow c) [ some v ↦ ok (v, c) | none ↦ fill_and_borrow (f c).1 (f c).0 ]

  try_fill : {E : Type 0} → Result T E × LazyCell T → Outcome (Result T E × LazyCell T)
  unfolding fill_and_borrow
  try_fill (error e, c) = ok (error e, c)
  try_fill (value v, c) = do (r, c1) ← fill_and_borrow c v; ok (value r, c1)

  unfoldable pub try_borrow_with :
      {E : Type 0}
      → LazyCell T
      → (LazyCell T → Result T E × LazyCell T)
      → Outcome (Result T E × LazyCell T)
  unfolding try_fill
  try_borrow_with c f = elim (borrow c) [ some v ↦ ok (value v, c) | none ↦ try_fill (f c) ]

  unfoldable pub borrow_mut : LazyCell T → Option (MutRef T)
  borrow_mut c = elim c.inner [
    | none ↦ none
    | some v ↦ some (record { now = v; store = λ w. record c { inner = some w } })
  ]

  -- The `?` and the `unwrap` at the end of the mutable borrows.
  unfoldable pub fill_and_borrow_mut : LazyCell T → T → Outcome (MutRef T)
  unfolding fill
  fill_and_borrow_mut c v =
      let (r, c1) = fill c v in elim r [ error _ ↦ panic | value _ ↦ unwrap (borrow_mut c1) ]

  -- Through `&mut self` the closure cannot reach the cell.
  unfoldable pub borrow_mut_with : LazyCell T → (Unit {0} → T) → Outcome (MutRef T)
  borrow_mut_with c f = if filled c then unwrap (borrow_mut c) else fill_and_borrow_mut c (f tt)

  unfoldable pub try_borrow_mut_with :
      {E : Type 0}
      → LazyCell T
      → (Unit {0} → Result T E)
      → Outcome (Result (MutRef T) E × LazyCell T)
  try_borrow_mut_with c f =
      if filled c then (do m ← unwrap (borrow_mut c); ok (value m, c)) else elim (f tt) [
        | error e ↦ ok (error e, c)
        | value v ↦ (do m ← fill_and_borrow_mut c v; ok (value m, m.store v))
      ]

  unfoldable pub into_inner : LazyCell T → Option T
  into_inner c = c.inner

  -- `get` copies the value out.
  unfoldable pub get : LazyCell T → Option T
  get c = c.inner

  -- The value that a cell shows once it is filled from `v`.
  abbrev value_or : Option T → T → T
  value_or none v = v
  value_or (some w) _ = w

  -- A mutable borrow never panics: it shows the cell's value, or the closure's in an empty cell, and
  -- what is stored through it is what the cell holds afterwards.
  borrow_mut_with-get :
      (o : Option T)
      → (f : Unit {0} → T)
      → (m : MutRef T) × (borrow_mut_with (cell o) f ≡ ok m)
        × (m.now ≡ value_or o (f tt))
        × ((v : T) → get (m.store v) ≡ some v)
  unfolding borrow_mut_with fill_and_borrow_mut borrow_mut fill filled get
  borrow_mut_with-get none f = (_, refl, refl, λ _. refl)
  borrow_mut_with-get (some _) f = (_, refl, refl, λ _. refl)
