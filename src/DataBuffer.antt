-- ===== src/DataBuffer.antt =====
-- skynet/service-src/databuffer.h: the bytes that came for one connection of the gate, kept as the
-- pieces in which they came. The list from `head` to `tail` is a list of pieces; the pool from which
-- its nodes come, and to which they go back, is an allocator and has no model.
pub mod Stream
mod Tests
use rillserver.Prelude.{
  ℕ, zero, suc, ◌+◌, ◌-◌, ◌*◌, ◌^◌, Bool, true, false, Option, none, some, List, [], ◌∷◌, ◌++◌,
  length, take, drop, ltb, leb, ◌==◌, if◌then◌else◌,
}
use rillserver.Prelude.Int.{ℤ, pos, negsuc, neg, to_int}

-- `head` is NULL when there is no piece.
pub record DataBuffer : Type 0 where
  pub header : ℤ
  pub offset : ℕ
  pub size : ℕ
  pub pieces : List (List ℕ)

-- The loop of `databuffer_read`: the bytes copied, then `offset` and the pieces. It runs into a NULL
-- where the pieces end: none.
unfoldable pub read_pieces : ℕ → ℕ → List (List ℕ) → Option (List ℕ × (ℕ × List (List ℕ)))
read_pieces sz offset [] = none
read_pieces sz offset (b ∷ bs) =
    let bsz = length b - offset in
    let rest = read_pieces (sz - bsz) 0 bs in
    if ltb sz bsz
    then some (take sz (drop offset b), (offset + sz, b ∷ bs))
    else if bsz == sz
    then some (take sz (drop offset b), (0, bs))
    else elim rest [
      | none ↦ none
      | some (bytes, left) ↦ some (take bsz (drop offset b) ++ bytes, left)
    ]

-- `databuffer_read`; an assertion that fails is none.
unfoldable pub databuffer_read : DataBuffer → ℕ → Option (List ℕ × DataBuffer)
databuffer_read db sz =
    let found = read_pieces sz db.offset db.pieces in
    if ltb db.size sz then none else elim found [
      | none ↦ none
      | some (bytes, (offset, pieces)) ↦
          some (bytes, record db { size = db.size - sz; offset = offset; pieces = pieces })
    ]

-- `databuffer_push`
unfoldable pub databuffer_push : DataBuffer → List ℕ → DataBuffer
databuffer_push db bytes = record db {
  size = db.size + length bytes;
  pieces = db.pieces ++ (bytes ∷ []);
}

-- the number that bytes in network order make
abbrev pub big_endian : ℕ → List ℕ → ℕ
big_endian acc [] = acc
big_endian acc (b ∷ bs) = big_endian (acc * 256 + b) bs

-- The end of `databuffer_readheader`: `-1` while the body is incomplete.
abbrev pub complete : DataBuffer → ℤ × DataBuffer
complete db = elim db.header [
  | pos h ↦ if ltb db.size h then (neg 1, db) else (pos h, db)
  | negsuc h ↦ (negsuc h, db)
]

abbrev pub is_unset : ℤ → Bool
is_unset (pos h) = h == 0
is_unset (negsuc h) = false

-- `databuffer_readheader`, with a header of 2 or 4 bytes
unfoldable pub databuffer_readheader : DataBuffer → ℕ → Option (ℤ × DataBuffer)
databuffer_readheader db header_size =
    if is_unset db.header
    then if ltb db.size header_size
      then some (neg 1, db)
      else elim (databuffer_read db header_size) [
        | none ↦ none
        | some (plen, left) ↦ some (complete (record left { header = to_int (big_endian 0 plen) }))
      ]
    else some (complete db)

unfoldable pub databuffer_reset : DataBuffer → DataBuffer
databuffer_reset db = record db { header = pos 0 }

unfoldable pub databuffer_clear : DataBuffer → DataBuffer
databuffer_clear db = record { header = pos 0; offset = 0; size = 0; pieces = [] }
