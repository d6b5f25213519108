-- ===== src/WebSocket/Frame/Pack.antt =====
-- `lpack` against the wire format, and against `read_size`.
use rillserver.Prelude.{
  ℕ, ◌<◌, ◌^◌, ◌≡◌, ap, arith, none, List, length, drop, ltb, Bool-cases, inl, inr, length-append,
  drop-append,
}
use rillserver.Prelude.Int.{pos}
use rillserver.WebSocket.Wire.{head, wire, masked_payload, head_length}
use rillserver.WebSocket.Frame.{no_outs, read_size, frame_header, pack}
use rillserver.WebSocket.Frame.Header.{stored, read_size-head, length-head}

frame_header-head : (n : ℕ) → frame_header n ≡ head 2 none n
unfolding frame_header
frame_header-head n = elim (Bool-cases (ltb n 126)) [
  | inl a ↦ rw a (ground arith)
  | inr a ↦ elim (Bool-cases (ltb n 65536)) [
    | inl b ↦ rw (a, b) (ground arith)
    | inr b ↦ rw (a, b) (ground arith)
  ]
]

-- `lpack` writes the unmasked binary frame of the wire format around any payload, and returns
-- the number of its bytes.
pub pack-wire : (msg : List ℕ) → pack msg ≡ (wire 2 none msg, length (wire 2 none msg))
unfolding pack masked_payload
pack-wire msg =
    let e = frame_header-head (length msg) in
    let l = length-append (head 2 none (length msg)) msg in rw e (ground (arith, l))

-- Below 2 GiB, `read_size` reads back what `lpack` wrote: the size of the payload, no mask, and
-- a head behind which the payload stands.
pub read_size-pack :
    (msg : List ℕ)
    → length msg < 2 ^ 31
    → (read_size (pack msg).0 no_outs ≡ (pos (length msg), stored none (length msg) no_outs))
      × (drop (head_length none (length msg)) (pack msg).0 ≡ msg)
unfolding masked_payload
read_size-pack msg h =
    let e = ap (λ (r : List ℕ × ℕ). r.0) (pack-wire msg) in
    rw e (
      read_size-head 2 (length msg) none msg no_outs (omega arith) h,
      rw (← length-head 2 (length msg) none) (drop-append (head 2 none (length msg)) msg),
    )
