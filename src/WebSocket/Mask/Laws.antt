-- ===== src/WebSocket/Mask/Laws.antt =====
-- Unmasking in pieces, and unmasking what a client has masked.
use Prim.Native.Nat.{bit_xor}
use rillserver.Prelude.{
  ℕ, zero, suc, ◌+◌, ◌%◌, ◌≡◌, refl, ap, ap₂, ◌∙◌, arith, some, List, [], ◌∷◌, ◌++◌, length, get_or,
  Bool-cases, inl, inr, length-append,
}
use rillserver.Prelude.Bits.{xor_twice}
use rillserver.WebSocket.Wire.{Key, key_bytes, rotate, mask_with}
use rillserver.WebSocket.Queue.{Uncomplete}
use rillserver.WebSocket.Mask.{unmask, decode_wsmask_data}

-- Only the sum of the two counters matters.
unmask-suc :
    (m : List ℕ) (done i : ℕ) (xs : List ℕ) → unmask m done (i + 1) xs ≡ unmask m (done + 1) i xs
unfolding unmask
unmask-suc m done i [] = refl
unmask-suc m done i (x ∷ xs) =
    let e : i + 1 + done ≡ i + (done + 1) = omega arith in
    rw e
      (ap (λ r. bit_xor x (get_or m ((i + (done + 1)) % 4) 0) ∷ r) (unmask-suc m done (i + 1) xs))

unmask-append :
    (m : List ℕ) (done : ℕ) (xs ys : List ℕ)
    → unmask m done 0 (xs ++ ys) ≡ unmask m done 0 xs ++ unmask m (done + length xs) 0 ys
unfolding unmask
unmask-append m done [] ys = ap (λ (d : ℕ). unmask m d 0 ys) (omega arith)
unmask-append m done (x ∷ xs) ys =
    let e : done + suc (length xs) ≡ done + 1 + length xs = omega arith in
    rw e (
      ap (λ r. bit_xor x (get_or m ((0 + done) % 4) 0) ∷ r)
        (rest (unmask-append m (done + 1) xs ys)))
  where
    rest :
        unmask m (done + 1) 0 (xs ++ ys)
          ≡ unmask m (done + 1) 0 xs ++ unmask m (done + 1 + length xs) 0 ys
        → unmask m done 1 (xs ++ ys) ≡ unmask m done 1 xs ++ unmask m (done + 1 + length xs) 0 ys
    rest ih = rw (unmask-suc m done 0 (xs ++ ys), unmask-suc m done 0 xs) ih

-- A payload may be unmasked in two pieces: the bytes and the state are those of one call.
pub decode_wsmask_data-append :
    (xs ys : List ℕ) (uc : Uncomplete)
    → let (first, uc') = decode_wsmask_data xs uc in
      let (second, uc'') = decode_wsmask_data ys uc' in
      decode_wsmask_data (xs ++ ys) uc ≡ (first ++ second, uc'')
unfolding decode_wsmask_data
decode_wsmask_data-append xs ys uc = elim (Bool-cases uc.ismask) [
  | inl e ↦ ground (arith, unmask-append uc.mask uc.hasunmask_size xs ys, length-append xs ys)
  | inr e ↦ ground arith
]

-- the key after `n` bytes
abbrev pub turn : ℕ → Key → Key
turn zero k = k
turn (suc n) k = rotate (turn n k)

key_byte : (n : ℕ) (k : Key) → get_or (key_bytes (some k)) (n % 4) 0 ≡ (turn n k).k0
key_byte zero k = refl
key_byte (suc zero) k = refl
key_byte (suc (suc zero)) k = refl
key_byte (suc (suc (suc zero))) k = refl
key_byte (suc (suc (suc (suc n)))) k =
    ap (λ (j : ℕ). get_or (key_bytes (some k)) j 0) (omega arith) ∙ key_byte n k

pub unmask-mask_with :
    (k : Key) (n : ℕ) (p : List ℕ) → unmask (key_bytes (some k)) n 0 (mask_with (turn n k) p) ≡ p
unfolding unmask mask_with
unmask-mask_with k n [] = refl
unmask-mask_with k n (x ∷ p) =
    ap₂ ◌∷◌
      (ap (λ (j : ℕ). bit_xor (bit_xor x (turn n k).k0) j)
          (ap (λ (j : ℕ). get_or (key_bytes (some k)) (j % 4) 0) (omega arith) ∙ key_byte n k)
        ∙ xor_twice x (turn n k).k0)
      (unmask-suc (key_bytes (some k)) n 0 (mask_with (rotate (turn n k)) p)
        ∙ ap (λ (d : ℕ). unmask (key_bytes (some k)) d 0 (mask_with (rotate (turn n k)) p))
            (omega arith)
        ∙ unmask-mask_with k (suc n) p)
