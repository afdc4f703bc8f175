-- ===== src/Awakener.antt =====
-- `Awakener` of src/sys/unix/awakener.rs, the two ends of a pipe. What `write` and `read` return is given.
use sickle.Base.{
  ℕ, zero, suc, List, [], ◌∷◌, if◌then◌else◌, Outcome, ok, out_of_fuel, IoResult, success, failure,
  is_would_block,
}

-- A full pipe wakes the reader as well.
unfoldable pub wakeup : (written : IoResult ℕ) → IoResult (Unit {0})
wakeup (success n) = success tt
wakeup (failure e) = if is_would_block e then success tt else failure e

-- The loop of `cleanup`, over what the reads return: what is left of them.
unfoldable pub cleanup : (reads : List (IoResult ℕ)) → Outcome (List (IoResult ℕ))
cleanup [] = out_of_fuel
cleanup (success zero ∷ reads) = ok reads
cleanup (success (suc n) ∷ reads) = cleanup reads
cleanup (failure e ∷ reads) = ok reads
