-- ===== src/NonBlock/Tests.antt =====
-- A read that would block, and a write of two of three bytes.
use sickle.Base.{◌≡◌, refl, none, some, [], ◌∷◌, ok, success, failure, ErrorKind}
use sickle.NonBlock.{try_read_buf, try_write_buf}

read_later :
    try_read_buf (1 ∷ []) (9 ∷ 9 ∷ []) (failure ErrorKind.would_block) ≡ ok (success none, 1 ∷ [])
unfolding try_read_buf
read_later = refl

write_two : try_write_buf (1 ∷ 2 ∷ 3 ∷ []) (success 2) ≡ ok (success (some 2), 3 ∷ [])
unfolding try_write_buf
write_two = refl
