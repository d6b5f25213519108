-- ===== src/WebSocket/Filter/Sizes.antt =====
-- The sizes that a header gives take bytes off the buffer.
use rillserver.Prelude.{
  ℕ, ◌-◌, ◌<◌, ◌≤◌, ◌≡◌, refl, arith, Bool, true, false, List, [], ◌∷◌, length, drop, Bool-cases,
  inl, inr, length-drop,
}
use rillserver.Prelude.Int.{ℤ, pos, negsuc}
use rillserver.WebSocket.Frame.{Outs, no_outs, read_size, read_length, read_mask}
use rillserver.WebSocket.Handshake.{get_http_header}
use rillserver.WebSocket.Push.{HeaderRead, reset, read_loop, read_header, clamp}

-- A size comes with a head of two bytes or more.
read_mask-head :
    (buffer : List ℕ) (m : Bool) (z : ℤ) (offset n : ℕ) (o : Outs)
    → 2 ≤ offset
    → (read_mask buffer m z offset o).0 ≡ pos n
    → 2 ≤ (read_mask buffer m z offset o).1.pack_head_length
unfolding read_mask
read_mask-head buffer m z offset n o h e = ground arith

read_length-head :
    (buffer : List ℕ) (n : ℕ) (o : Outs)
    → (read_length buffer o).0 ≡ pos n
    → 2 ≤ (read_length buffer o).1.pack_head_length
unfolding read_length
read_length-head buffer n o e = grind (arith, read_mask-head)

read_size-head_length :
    (buffer : List ℕ) (n : ℕ) (o : Outs)
    → (read_size buffer o).0 ≡ pos n
    → 2 ≤ (read_size buffer o).1.pack_head_length
unfolding read_size
read_size-head_length buffer n o e = ground (arith, read_length-head buffer n o)

short_read : (bytes : List ℕ) (o : Outs) → length bytes < 2 → read_size bytes o ≡ (negsuc 0, o)
unfolding read_size
short_read bytes o h = ground arith

-- What a loop reads is a size only with a head, and behind no more bytes than there were.
abbrev Consumes : HeaderRead → ℕ → Type 0
Consumes r n = (2 ≤ r.outs.pack_head_length) × (length r.bytes ≤ n)

read_loop-Consumes :
    (again : ℤ → Bool) (bytes : List ℕ) (o : Outs) (n : ℕ)
    → (read_loop again o bytes).pack_size ≡ pos n
    → Consumes (read_loop again o bytes) (length bytes)
unfolding read_loop
read_loop-Consumes again [] o n e = ground (arith, short_read [] o)
read_loop-Consumes again (a ∷ []) o n e = ground (arith, short_read (a ∷ []) o)
read_loop-Consumes again (a ∷ b ∷ bytes) o n e =
    elim (Bool-cases (again (read_size (a ∷ b ∷ bytes) o).0)) [
      | inl round ↦ rw round (
          ground (
            arith,
            read_loop-Consumes again bytes (reset (read_size (a ∷ b ∷ bytes) o).1) n
                (rw round at e),
          ))
      | inr stop ↦ rw stop (read_size-head_length (a ∷ b ∷ bytes) n o (rw stop at e), omega arith)
    ]

clamp-pos : (z : ℤ) (n : ℕ) → clamp z ≡ pos n → (m : ℕ) × (z ≡ pos m)
clamp-pos (pos m) n e = (m, refl)
clamp-pos (negsuc m) n e = cc

header_four : (bytes : List ℕ) (n : ℕ) → get_http_header bytes ≡ pos n → 4 ≤ n
unfolding get_http_header
header_four bytes n e = ground arith

-- What is left for the next round is less.
pub read_header-less :
    (again : ℤ → Bool) (handshake : Bool) (bytes : List ℕ) (n : ℕ)
    → let r = read_header again handshake no_outs bytes in
      r.pack_size ≡ pos n
      → 0 < length (drop r.outs.pack_head_length r.bytes) - n
      → length (drop n (drop r.outs.pack_head_length r.bytes)) < length bytes
unfolding read_header
read_header-less again true bytes n e left =
    omega (arith, header_four bytes n e, length-drop n bytes)
read_header-less again false bytes n e left =
    let (m, e') = clamp-pos (read_loop again no_outs bytes).pack_size n e in
    let r = read_loop again no_outs bytes in
    let c = read_loop-Consumes again bytes no_outs m e' in
    omega (
      arith,
      c,
      length-drop r.outs.pack_head_length r.bytes,
      length-drop n (drop r.outs.pack_head_length r.bytes),
    )
