-- ===== src/WebSocket/Wire.antt =====
-- The wire format of RFC 6455, section 5.2, for unfragmented frames: what a client may send. It
-- is independent of the code that reads it.
use Prim.Native.Nat.{bit_xor}
use rillserver.Prelude.{
  ℕ, ◌+◌, ◌/◌, ◌%◌, ◌^◌, ◌<◌, ◌≢◌, Option, none, some, List, [], ◌∷◌, ◌++◌, length, ltb,
  if◌then◌else◌,
}

-- The four bytes of a masking key.
pub record Key : Type 0 where
  pub k0 : ℕ
  pub k1 : ℕ
  pub k2 : ℕ
  pub k3 : ℕ

abbrev pub key_bytes : Option Key → List ℕ
key_bytes none = []
key_bytes (some k) = k.k0 ∷ k.k1 ∷ k.k2 ∷ k.k3 ∷ []

abbrev pub rotate : Key → Key
rotate k = record { k0 = k.k1; k1 = k.k2; k2 = k.k3; k3 = k.k0 }

-- Byte i of a payload is mixed with byte (i mod 4) of the key: the key turns once a byte.
unfoldable pub mask_with : Key → List ℕ → List ℕ
mask_with k [] = []
mask_with k (x ∷ xs) = bit_xor x k.k0 ∷ mask_with (rotate k) xs

unfoldable pub masked_payload : Option Key → List ℕ → List ℕ
masked_payload none p = p
masked_payload (some k) p = mask_with k p

abbrev pub mask_bit : Option Key → ℕ
mask_bit none = 0
mask_bit (some k) = 128

-- the second byte of a frame with `n` bytes of payload
abbrev pub length_byte : Option Key → ℕ → ℕ
length_byte key n = mask_bit key + (if ltb n 126 then n else if ltb n 65536 then 126 else 127)

-- the extended length
abbrev pub length_bytes : ℕ → List ℕ
length_bytes n =
    if ltb n 126
    then []
    else if ltb n 65536
    then n / 256 ∷ n % 256 ∷ []
    else n / 2 ^ 56 % 256
      ∷ n / 2 ^ 48 % 256
      ∷ n / 2 ^ 40 % 256
      ∷ n / 2 ^ 32 % 256
      ∷ n / 2 ^ 24 % 256
      ∷ n / 2 ^ 16 % 256
      ∷ n / 2 ^ 8 % 256
      ∷ n % 256
      ∷ []

-- all of the frame but its payload
abbrev pub head : ℕ → Option Key → ℕ → List ℕ
head opcode key n = (128 + opcode) ∷ length_byte key n ∷ (length_bytes n ++ key_bytes key)

abbrev pub wire : ℕ → Option Key → List ℕ → List ℕ
wire opcode key payload = head opcode key (length payload) ++ masked_payload key payload

abbrev pub head_length : Option Key → ℕ → ℕ
head_length none n = 2 + (if ltb n 126 then 0 else if ltb n 65536 then 2 else 8)
head_length (some k) n = 6 + (if ltb n 126 then 0 else if ltb n 65536 then 2 else 8)

-- A frame with data in it: not a continuation, not a close.
abbrev pub IsDataOpcode : ℕ → Type 0
IsDataOpcode op = (op < 16) × (op ≢ 0) × (op ≢ 8)
