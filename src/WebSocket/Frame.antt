-- ===== src/WebSocket/Frame.antt =====
-- The frame header: `read_size` decodes it, `lpack` encodes it. A `uint8_t *buffer` with its
-- `size` is the list of the bytes, and an `int` result is a ℤ. The host is little-endian.
pub mod Bytes
pub mod Header
pub mod Pack
use rillserver.Prelude.{
  ℕ, ◌+◌, ◌*◌, ◌/◌, ◌%◌, ◌^◌, Bool, true, false, ◌||◌, not, List, [], ◌∷◌, ◌++◌, length, get_or,
  take, drop, replicate, ltb, leb, ◌==◌, if◌then◌else◌,
}
use rillserver.Prelude.Int.{ℤ, pos, neg, to_int}

abbrev pub websocket_header_len : ℕ
websocket_header_len = 2

abbrev pub websocket_mask_len : ℕ
websocket_mask_len = 4

-- The variables that `read_size` writes through pointers; `mask` is its four bytes.
pub record Outs : Type 0 where
  pub pack_head_length : ℕ
  pub mask : List ℕ
  pub ismask : Bool
  pub hasunmask_size : ℕ

-- as every caller sets them before the first call
abbrev pub no_outs : Outs
no_outs = record {
  pack_head_length = 0;
  mask = replicate websocket_mask_len 0;
  ismask = false;
  hasunmask_size = 0;
}

-- `*((uint16_t *) p)` and `*((uint64_t *) p)` at offset `i`
unfoldable pub load16 : List ℕ → ℕ → ℕ
load16 b i = get_or b i 0 + get_or b (i + 1) 0 * 2 ^ 8

unfoldable pub load64 : List ℕ → ℕ → ℕ
unfolding load16
load64 b i =
    load16 b i + load16 b (i + 2) * 2 ^ 16 + load16 b (i + 4) * 2 ^ 32 + load16 b (i + 6) * 2 ^ 48

unfoldable pub ntohs : ℕ → ℕ
ntohs x = x % 2 ^ 8 * 2 ^ 8 + x / 2 ^ 8 % 2 ^ 8

unfoldable pub ntohl : ℕ → ℕ
unfolding ntohs
ntohl x = ntohs (x % 2 ^ 16) * 2 ^ 16 + ntohs (x / 2 ^ 16)

-- `|=` joins disjoint bits.
unfoldable pub ntoh64 : ℕ → ℕ
unfolding ntohl
ntoh64 host =
    let low = ntohl (host % 2 ^ 32) in
    let high = ntohl (host / 2 ^ 32 % 2 ^ 32) in low * 2 ^ 32 + high

-- The end of `read_size`, with `pack_size` and `offset` known.
unfoldable pub read_mask : List ℕ → Bool → ℤ → ℕ → Outs → ℤ × Outs
read_mask buffer is_mask pack_size offset o =
    if is_mask
    then (if ltb (length buffer) (offset + websocket_mask_len) then (neg 1, o) else (
      pack_size,
      record o {
        ismask = true;
        mask = take websocket_mask_len (drop offset buffer);
        pack_head_length = offset + websocket_mask_len;
      },
    ))
    else (pack_size, record o { pack_head_length = offset })

-- `read_size` from the length field on.
unfoldable pub read_length : List ℕ → Outs → ℤ × Outs
read_length buffer o =
    let b1 = get_or buffer 1 0 in
    let is_mask = b1 / 2 ^ 7 % 2 == 1 in
    let len7 = b1 % 2 ^ 7 in
    if ltb len7 126
    then read_mask buffer is_mask (pos len7) 2 o
    else if len7 == 126
    then (if ltb (length buffer) 4
        then (neg 1, o)
        else read_mask buffer is_mask (pos (ntohs (load16 buffer 2))) 4 o)
    else if ltb (length buffer) 10
    then (neg 1, o)
    else read_mask buffer is_mask (to_int (ntoh64 (load64 buffer 2))) 10 o

unfoldable pub read_size : List ℕ → Outs → ℤ × Outs
read_size buffer o =
    let b0 = get_or buffer 0 0 in
    let fin = b0 / 2 ^ 7 % 2 in
    let rsv1 = b0 / 2 ^ 6 % 2 in
    let rsv2 = b0 / 2 ^ 5 % 2 in
    let rsv3 = b0 / 2 ^ 4 % 2 in
    let opcode = b0 % 2 ^ 4 in
    if ltb (length buffer) 2
    then (neg 1, o)
    else if not (rsv1 == 0) || not (rsv2 == 0) || not (rsv3 == 0)
    then (neg 2, o)
    else if fin == 0 || opcode == 0
    then (neg 2, o)
    else if opcode == 8
    then (neg 3, o)
    else read_length buffer o

abbrev pub frame_set_fin : ℕ → ℕ
frame_set_fin b = b % 2 * 2 ^ 7

abbrev pub frame_set_opcode : ℕ → ℕ
frame_set_opcode b = b % 2 ^ 4

abbrev pub frame_set_mask : ℕ → ℕ
frame_set_mask b = b % 2 * 2 ^ 7

abbrev pub frame_set_length : ℕ → ℕ → ℕ
frame_set_length x64 idx = x64 / 2 ^ (idx * 8) % 2 ^ 8

-- the bytes that `lpack` writes to `frame_header`
unfoldable pub frame_header : ℕ → List ℕ
frame_header len =
    (frame_set_fin 1 + frame_set_opcode 2)
    ∷ (if ltb len 126
        then (frame_set_mask 0 + frame_set_length len 0) ∷ []
        else if ltb len 65536
        then (frame_set_mask 0 + 126) ∷ frame_set_length len 1 ∷ frame_set_length len 0 ∷ []
        else (frame_set_mask 0 + 127)
          ∷ frame_set_length len 7
          ∷ frame_set_length len 6
          ∷ frame_set_length len 5
          ∷ frame_set_length len 4
          ∷ frame_set_length len 3
          ∷ frame_set_length len 2
          ∷ frame_set_length len 1
          ∷ frame_set_length len 0
          ∷ [])

-- `lpack`: what it returns, the buffer and its size
unfoldable pub pack : List ℕ → List ℕ × ℕ
pack msg = (frame_header (length msg) ++ msg, length msg + length (frame_header (length msg)))
