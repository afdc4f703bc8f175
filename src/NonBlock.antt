-- ===== src/NonBlock.antt =====
-- The non-blocking reads and writes of src/net/mod.rs, `TryRead` and `TryWrite`. What `read` and `write`
-- return is given, and so are the bytes that a read puts into the room of the buffer.
mod Tests
use sickle.Base.{
  ℕ, ◌+◌, ◌-◌, ◌≤◌, ◌≡◌, refl, sym, ◌∙◌, Bool-cases, inl, inr, Option, none, some, List, ◌++◌,
  length, length-append, take, drop, leb, if◌then◌else◌, Outcome, ok, panic, IoResult, success,
  failure, ErrorKind, is_would_block, arith,
}

-- `map_non_block`
unfoldable pub map_non_block {ℓ} : {A : Type ℓ} → IoResult A → IoResult (Option A)
map_non_block (success value) = success (some value)
map_non_block (failure err) = if is_would_block err then success none else failure err

-- `try_read` and `try_write`
unfoldable pub try_read : (read : IoResult ℕ) → IoResult (Option ℕ)
unfolding map_non_block
try_read read = map_non_block read

unfoldable pub try_write : (write : IoResult ℕ) → IoResult (Option ℕ)
unfolding map_non_block
try_write write = map_non_block write

-- `advance_mut` beyond the room, and `advance` beyond the bytes, are panics.
unfoldable pub filled :
    (buf chunk : List ℕ) → IoResult (Option ℕ) → Outcome (IoResult (Option ℕ) × List ℕ)
filled buf chunk (success (some cnt)) =
    if leb cnt (length chunk) then ok (success (some cnt), buf ++ take cnt chunk) else panic
filled buf chunk (success none) = ok (success none, buf)
filled buf chunk (failure e) = ok (failure e, buf)

-- `chunk` is what the read leaves in the room behind the bytes.
unfoldable pub try_read_buf :
    (buf chunk : List ℕ) → (read : IoResult ℕ) → Outcome (IoResult (Option ℕ) × List ℕ)
unfolding try_read filled
try_read_buf buf chunk read = filled buf chunk (try_read read)

unfoldable pub written :
    (buf : List ℕ) → IoResult (Option ℕ) → Outcome (IoResult (Option ℕ) × List ℕ)
written buf (success (some cnt)) =
    if leb cnt (length buf) then ok (success (some cnt), drop cnt buf) else panic
written buf (success none) = ok (success none, buf)
written buf (failure e) = ok (failure e, buf)

unfoldable pub try_write_buf :
    (buf : List ℕ) → (write : IoResult ℕ) → Outcome (IoResult (Option ℕ) × List ℕ)
unfolding try_write written
try_write_buf buf write = written buf (try_write write)
