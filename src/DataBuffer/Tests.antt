-- ===== src/DataBuffer/Tests.antt =====
-- The data buffer at concrete inputs.
use rillserver.Prelude.{ℕ, ◌≡◌, refl, Option, none, some, List, [], ◌∷◌}
use rillserver.Prelude.Int.{pos}
use rillserver.DataBuffer.{DataBuffer, databuffer_read, databuffer_push, read_pieces}

abbrev two_pieces : DataBuffer
two_pieces = record {
  header = pos 0;
  offset = 1;
  size = 4;
  pieces = (0 ∷ 3 ∷ []) ∷ (97 ∷ 98 ∷ 99 ∷ []) ∷ [];
}

abbrev bytes_read : Option (List ℕ × DataBuffer) → List ℕ
bytes_read none = []
bytes_read (some (bytes, left)) = bytes

across_pieces :
    bytes_read (databuffer_read (databuffer_push two_pieces (100 ∷ [])) 5)
    ≡ 3 ∷ 97 ∷ 98 ∷ 99 ∷ 100 ∷ []
unfolding databuffer_read databuffer_push read_pieces
across_pieces = refl
