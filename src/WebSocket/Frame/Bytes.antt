-- ===== src/WebSocket/Frame/Bytes.antt =====
-- The multi-byte length fields of a header, in network order.
use rillserver.Prelude.{ℕ, ◌+◌, ◌*◌, ◌/◌, ◌%◌, ◌^◌, ◌<◌, ◌≡◌, ap, ap₂, ◌∙◌, arith}
use rillserver.Prelude.Int.{pos, to_int}
use rillserver.WebSocket.Frame.{ntohs, ntohl, ntoh64}

-- `ntohs` of a loaded short is the first byte above the second.
pub ntohs-load16 : (a b : ℕ) → a < 256 → b < 256 → ntohs (a + b * 2 ^ 8) ≡ a * 256 + b
unfolding ntohs
ntohs-load16 a b p q = omega arith

pub ntohs_bytes : (n : ℕ) → n < 65536 → ntohs (n / 256 + n % 256 * 256) ≡ n
unfolding ntohs
ntohs_bytes n h = omega arith

pub ntohl-load32 :
    (a b c d : ℕ)
    → a < 256
    → b < 256
    → c < 256
    → d < 256
    → ntohl (a + b * 2 ^ 8 + (c + d * 2 ^ 8) * 2 ^ 16) ≡ ((a * 256 + b) * 256 + c) * 256 + d
unfolding ntohl
ntohl-load32 a b c d p q r s = omega arith

-- A host word is its two halves, each swapped, the low one on top.
pub ntoh64-halves :
    (lo hi : ℕ)
    → lo < 2 ^ 32
    → hi < 2 ^ 32
    → ntoh64 (lo + hi * 2 ^ 32) ≡ ntohl lo * 2 ^ 32 + ntohl hi
unfolding ntoh64
ntoh64-halves lo hi p q =
    ap₂ ◌+◌ (ap (λ (k : ℕ). ntohl k * 2 ^ 32) (omega arith)) (ap ntohl (omega arith))

-- The eight bytes of `n`, highest first, loaded by the host and swapped.
pub ntoh64_bytes :
    (n : ℕ)
    → n < 2 ^ 64
    → ntoh64 (
        n / 2 ^ 56 % 256
        + n / 2 ^ 48 % 256 * 2 ^ 8
        + (n / 2 ^ 40 % 256 + n / 2 ^ 32 % 256 * 2 ^ 8) * 2 ^ 16
        + (n / 2 ^ 24 % 256 + n / 2 ^ 16 % 256 * 2 ^ 8) * 2 ^ 32
        + (n / 2 ^ 8 % 256 + n % 256 * 2 ^ 8) * 2 ^ 48)
      ≡ n
ntoh64_bytes n h =
    ap ntoh64 (omega arith)
    ∙ ntoh64-halves (lo n) (hi n) (omega arith) (omega arith)
    ∙ ap₂ (λ (a b : ℕ). a * 2 ^ 32 + b)
        (ntohl-load32 _ _ _ _ (omega arith) (omega arith) (omega arith) (omega arith))
        (ntohl-load32 _ _ _ _ (omega arith) (omega arith) (omega arith) (omega arith))
    ∙ omega arith
  where
    lo : ℕ → ℕ
    lo n =
        n / 2 ^ 56 % 256
        + n / 2 ^ 48 % 256 * 2 ^ 8
        + (n / 2 ^ 40 % 256 + n / 2 ^ 32 % 256 * 2 ^ 8) * 2 ^ 16

    hi : ℕ → ℕ
    hi n =
        n / 2 ^ 24 % 256 + n / 2 ^ 16 % 256 * 2 ^ 8 + (n / 2 ^ 8 % 256 + n % 256 * 2 ^ 8) * 2 ^ 16

pub to_int_of_small : (n : ℕ) → n < 2 ^ 31 → to_int n ≡ pos n
to_int_of_small n h = ground arith
