-- ===== src/WebSocket/Frame/Header.antt =====
-- `read_size` on the head of a well-formed frame, whole and cut.

use rillserver.Prelude.{
  ℕ, ◌+◌, ◌/◌, ◌%◌, ◌^◌, ◌<◌, ◌≡◌, ap, ◌∙◌, arith, true, Option, none, some, List, ◌∷◌, ◌++◌,
  length, ltb, Bool-cases, inl, inr,
}
use rillserver.Prelude.Int.{pos, neg, to_int}
use rillserver.WebSocket.Wire.{Key, key_bytes, length_byte, head, head_length, IsDataOpcode}
use rillserver.WebSocket.Frame.{
  Outs, read_size, read_length, read_mask, load16, load64, ntohs, ntoh64,
}
use rillserver.WebSocket.Frame.Bytes.{ntohs_bytes, ntoh64_bytes, to_int_of_small}

-- what `read_size` stores when it has read a head
abbrev pub stored : Option Key → ℕ → Outs → Outs
stored none n o = record o { pack_head_length = head_length none n }
stored (some k) n o = record o {
  pack_head_length = head_length (some k) n;
  ismask = true;
  mask = key_bytes (some k);
}

-- The first byte of a data frame passes every test.
first_byte :
    (op b1 : ℕ) (rest : List ℕ) (o : Outs)
    → IsDataOpcode op
    → read_size ((128 + op) ∷ b1 ∷ rest) o ≡ read_length ((128 + op) ∷ b1 ∷ rest) o
unfolding read_size
first_byte op b1 rest o h = ground arith

-- A head that is cut short is not read, whatever has been asked to be stored.
pub read_size-cut :
    (op n : ℕ) (key : Option Key) (rest : List ℕ) (o : Outs)
    → IsDataOpcode op
    → length rest + 2 < head_length key n
    → read_size ((128 + op) ∷ length_byte key n ∷ rest) o ≡ (neg 1, o)
unfolding read_length read_mask
read_size-cut op n none rest o h cut = rw (first_byte op _ rest o h) (ground arith)
read_size-cut op n (some k) rest o h cut = rw (first_byte op _ rest o h) (ground arith)

-- the length field, loaded from behind two bytes
short_length :
    (a b n : ℕ) (rest : List ℕ)
    → n < 65536
    → ntohs (load16 (a ∷ b ∷ n / 256 ∷ n % 256 ∷ rest) 2) ≡ n
unfolding load16
short_length a b n rest h = ntohs_bytes n h

long_length :
    (a b n : ℕ) (rest : List ℕ)
    → n < 2 ^ 64
    → to_int (
        ntoh64 (
          load64
            (a
              ∷ b
              ∷ n / 2 ^ 56 % 256
              ∷ n / 2 ^ 48 % 256
              ∷ n / 2 ^ 40 % 256
              ∷ n / 2 ^ 32 % 256
              ∷ n / 2 ^ 24 % 256
              ∷ n / 2 ^ 16 % 256
              ∷ n / 2 ^ 8 % 256
              ∷ n % 256
              ∷ rest)
            2))
      ≡ to_int n
unfolding load64
long_length a b n rest h = ap to_int (ntoh64_bytes n h)

-- The head of a frame is read whatever stands behind it; the length is cast to an `int`.
pub read_size-head_int :
    (op n : ℕ) (key : Option Key) (rest : List ℕ) (o : Outs)
    → IsDataOpcode op
    → n < 2 ^ 64
    → read_size (head op key n ++ rest) o ≡ (to_int n, stored key n o)
unfolding read_length read_mask
read_size-head_int op n none rest o h small =
    rw (first_byte op _ _ o h) (elim (Bool-cases (ltb n 126)) [
      | inl a ↦ rw a (ground (arith, to_int_of_small n))
      | inr a ↦ elim (Bool-cases (ltb n 65536)) [
        | inl b ↦ rw (a, b) (ground (arith, to_int_of_small n, short_length (128 + op) 126 n rest))
        | inr b ↦ rw (a, b) (ground (arith, long_length (128 + op) 127 n rest))
      ]
    ])
read_size-head_int op n (some k) rest o h small =
    rw (first_byte op _ _ o h) (elim (Bool-cases (ltb n 126)) [
      | inl a ↦ rw a (ground (arith, to_int_of_small n))
      | inr a ↦ elim (Bool-cases (ltb n 65536)) [
        | inl b ↦
            rw (a, b) (ground (arith, to_int_of_small n, short_length (128 + op) 254 n (tail k)))
        | inr b ↦ rw (a, b) (ground (arith, long_length (128 + op) 255 n (tail k)))
      ]
    ])
  where
    tail : Key → List ℕ
    tail k = key_bytes (some k) ++ rest

-- Below 2 GiB the length is read as it is.
pub read_size-head :
    (op n : ℕ) (key : Option Key) (rest : List ℕ) (o : Outs)
    → IsDataOpcode op
    → n < 2 ^ 31
    → read_size (head op key n ++ rest) o ≡ (pos n, stored key n o)
read_size-head op n key rest o h small =
    read_size-head_int op n key rest o h (omega arith)
    ∙ ap (λ m. (m, stored key n o)) (to_int_of_small n small)

pub length-head : (op n : ℕ) (key : Option Key) → length (head op key n) ≡ head_length key n
length-head op n none = elim (Bool-cases (ltb n 126)) [
  | inl a ↦ rw a (ground arith)
  | inr a ↦ elim (Bool-cases (ltb n 65536)) [
    | inl b ↦ rw (a, b) (ground arith)
    | inr b ↦ rw (a, b) (ground arith)
  ]
]
length-head op n (some k) = elim (Bool-cases (ltb n 126)) [
  | inl a ↦ rw a (ground arith)
  | inr a ↦ elim (Bool-cases (ltb n 65536)) [
    | inl b ↦ rw (a, b) (ground arith)
    | inr b ↦ rw (a, b) (ground arith)
  ]
]
