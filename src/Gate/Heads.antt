-- ===== src/Gate/Heads.antt =====
-- The messages of a stream, with their lengths in front.
use rillserver.Prelude.{
  ℕ, zero, suc, ◌/◌, ◌%◌, ◌^◌, ◌<◌, ◌≤◌, ◌≡◌, ◌⊎◌, inl, inr, refl, ap, sym, subst, ◌∙◌, arith, true,
  List, [], ◌∷◌, ◌++◌, length, take, drop, ltb, take-append, drop-append,
}
use rillserver.Prelude.Int.{pos, to_int}
use rillserver.DataBuffer.{DataBuffer, big_endian}
use rillserver.DataBuffer.Stream.{contents}

-- The head of a message: its length in bytes of network order, the highest first.
abbrev pub head_of : ℕ → ℕ → List ℕ
head_of zero n = []
head_of (suc k) n = n / 256 ^ k % 256 ∷ head_of k n

abbrev pub frames : ℕ → List (List ℕ) → List ℕ
frames hs [] = []
frames hs (b ∷ bodies) = head_of hs (length b) ++ (b ++ frames hs bodies)

-- What the gate sends: a message without bytes is skipped.
abbrev pub non_empty : List (List ℕ) → List (List ℕ)
non_empty [] = []
non_empty ([] ∷ bodies) = non_empty bodies
non_empty ((a ∷ b) ∷ bodies) = (a ∷ b) ∷ non_empty bodies

-- The lengths that a head of this size can say and that do not close the connection.
abbrev pub AllFit : ℕ → List (List ℕ) → Type 0
AllFit hs [] = Unit
AllFit hs (b ∷ bodies) = ((length b < 256 ^ hs) × (length b < 2 ^ 24)) × AllFit hs bodies

abbrev pub HeadSize : ℕ → Type 0
HeadSize hs = (hs ≡ 2) ⊎ (hs ≡ 4)

-- A buffer in which `bytes` wait: a head that was read is still one of them.
pub data Waits (hs : ℕ) (db : DataBuffer) (bytes : List ℕ) : Type 0 where
  unread : db.header ≡ pos 0 → contents db ≡ bytes → Waits hs db bytes
  read :
      (n : ℕ)
      → 1 ≤ n
      → n < 256 ^ hs
      → n < 2 ^ 31
      → db.header ≡ pos n
      → head_of hs n ++ contents db ≡ bytes
      → Waits hs db bytes

-- The beginning of a message.
pub data IsPartial (hs : ℕ) (bytes : List ℕ) : Type 0 where
  in_head : length bytes < hs → IsPartial hs bytes
  in_body :
      (n : ℕ) (part : List ℕ)
      → n < 256 ^ hs
      → n < 2 ^ 31
      → length part < n
      → bytes ≡ head_of hs n ++ part
      → IsPartial hs bytes

pub length-head_of : (hs n : ℕ) → length (head_of hs n) ≡ hs
length-head_of zero n = refl
length-head_of (suc hs) n = ap suc (length-head_of hs n)

pub big_endian-head_of : (hs n : ℕ) → HeadSize hs → n < 256 ^ hs → big_endian 0 (head_of hs n) ≡ n
big_endian-head_of hs n (inl e) lt =
    subst (λ k. n < 256 ^ k → big_endian 0 (head_of k n) ≡ n) (sym e)
      (λ small. omega (arith, small)) lt
big_endian-head_of hs n (inr e) lt =
    subst (λ k. n < 256 ^ k → big_endian 0 (head_of k n) ≡ n) (sym e)
      (λ small. omega (arith, small)) lt

pub to_int-small : (n : ℕ) → n < 2 ^ 31 → to_int n ≡ pos n
to_int-small n lt =
    let whole : n % 2 ^ 32 ≡ n = omega arith in
    let low : ltb n (2 ^ 31) ≡ true = ground arith in rw (whole, low)

module _ (hs n : ℕ) where
  pub take-head : (q : List ℕ) → take hs (head_of hs n ++ q) ≡ head_of hs n
  take-head q =
      ap (λ (k : ℕ). take k (head_of hs n ++ q)) (sym (length-head_of hs n))
      ∙ take-append (head_of hs n) q

  pub drop-head : (q : List ℕ) → drop hs (head_of hs n ++ q) ≡ q
  drop-head q =
      ap (λ (k : ℕ). drop k (head_of hs n ++ q)) (sym (length-head_of hs n))
      ∙ drop-append (head_of hs n) q

-- The head and the rest are determined by the bytes.
pub head_unique :
    (hs n m : ℕ) (q r : List ℕ)
    → HeadSize hs
    → n < 256 ^ hs
    → m < 256 ^ hs
    → head_of hs n ++ q ≡ head_of hs m ++ r
    → (n ≡ m) × (q ≡ r)
head_unique hs n m q r size lt lt' e = (
  sym (big_endian-head_of hs n size lt)
      ∙ ap (big_endian 0) (sym (take-head hs n q) ∙ ap (take hs) e ∙ take-head hs m r)
      ∙ big_endian-head_of hs m size lt',
  sym (drop-head hs n q) ∙ ap (drop hs) e ∙ drop-head hs m r,
)
