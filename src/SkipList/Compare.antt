-- ===== src/SkipList/Compare.antt =====
-- `compareslObj`: the order of the objects, which are byte strings.
use rillserver.Prelude.{
  ℕ, zero, suc, ◌-◌, ◌≡◌, ◌↔◌, refl, ap, sym, ◌∙◌, arith, Bool, true, false, ◌&&◌, ◌||◌, List, [],
  ◌∷◌, length, ltb, leb, ◌==◌, if◌then◌else◌,
}
use rillserver.Prelude.Int.{ℤ, pos, negsuc, is_neg}

-- `memcmp`: only the sign of the result is laid down, and here it is -1, 0 or 1.
unfoldable pub memcmp : List ℕ → List ℕ → ℕ → ℤ
memcmp a b zero = pos 0
memcmp [] b (suc n) = pos 0
memcmp (x ∷ a) [] (suc n) = pos 0
memcmp (x ∷ a) (y ∷ b) (suc n) =
    let later = memcmp a b n in if ltb x y then negsuc 0 else if ltb y x then pos 1 else later

-- `(int)(m - n)` of two lengths below 2^31
abbrev pub minus : ℕ → ℕ → ℤ
minus m n = if ltb m n then negsuc (n - m - 1) else pos (m - n)

abbrev pub is_zero : ℤ → Bool
is_zero (pos n) = n == 0
is_zero (negsuc n) = false

-- `compareslObj`
unfoldable pub compare_obj : List ℕ → List ℕ → ℤ
compare_obj a b =
    let cmp = memcmp a b (if leb (length a) (length b) then length a else length b) in
    if is_zero cmp then minus (length a) (length b) else cmp

-- `equalslObj`
unfoldable pub equals_obj : List ℕ → List ℕ → Bool
equals_obj a b = is_zero (compare_obj a b)

-- The dictionary order of byte strings.
abbrev pub lex : List ℕ → List ℕ → Bool
lex a [] = false
lex [] (y ∷ b) = true
lex (x ∷ a) (y ∷ b) = ltb x y || (x == y) && lex a b

-- The number of bytes compared, behind a first one.
shorter : List ℕ → List ℕ → ℕ
shorter a b = if leb (length a) (length b) then length a else length b

shorter-cons :
    (x y : ℕ) (a b : List ℕ)
    → (if leb (suc (length a)) (suc (length b)) then suc (length a) else suc (length b))
      ≡ suc (shorter a b)
unfolding shorter
shorter-cons x y a b = ground arith

compare-cons :
    (x y : ℕ) (a b : List ℕ)
    → compare_obj (x ∷ a) (y ∷ b)
      ≡ (if ltb x y then negsuc 0 else if ltb y x then pos 1 else compare_obj a b)
unfolding compare_obj memcmp
compare-cons x y a b = rw (shorter-cons x y a b) (unfold shorter in ground arith)

compare-lex : (a b : List ℕ) → is_neg (compare_obj a b) ≡ lex a b
compare-lex [] [] = unfold compare_obj memcmp in refl
compare-lex [] (y ∷ b) = unfold compare_obj memcmp in ground arith
compare-lex (x ∷ a) [] = unfold compare_obj memcmp in ground arith
compare-lex (x ∷ a) (y ∷ b) = rw (compare-cons x y a b) (ground (arith, compare-lex a b))

equals_obj-eq : (a b : List ℕ) → equals_obj a b ≡ true → a ≡ b
unfolding equals_obj
equals_obj-eq [] [] h = refl
equals_obj-eq [] (y ∷ b) h = unfold compare_obj memcmp in ground arith
equals_obj-eq (x ∷ a) [] h = unfold compare_obj memcmp in ground arith
equals_obj-eq (x ∷ a) (y ∷ b) h = ground (arith, compare-cons x y a b, equals_obj-eq a b)

equals_obj_refl : (a : List ℕ) → equals_obj a a ≡ true
unfolding equals_obj
equals_obj_refl [] = unfold compare_obj memcmp in refl
equals_obj_refl (x ∷ a) = ground (arith, compare-cons x x a a, equals_obj_refl a)

pub lex_trans : (a b c : List ℕ) → lex a b ≡ true → lex b c ≡ true → lex a c ≡ true
lex_trans a b [] h h' = cc
lex_trans a [] (z ∷ c) h h' = cc
lex_trans [] (y ∷ b) (z ∷ c) h h' = refl
lex_trans (x ∷ a) (y ∷ b) (z ∷ c) h h' = ground (arith, lex_trans a b c)

pub lex_irrefl : (a : List ℕ) → lex a a ≡ false
lex_irrefl [] = refl
lex_irrefl (x ∷ a) = ground (arith, lex_irrefl a)

pub lex_total : (a b : List ℕ) → lex a b ≡ false → lex b a ≡ false → a ≡ b
lex_total [] [] h h' = refl
lex_total [] (y ∷ b) h h' = cc
lex_total (x ∷ a) [] h h' = cc
lex_total (x ∷ a) (y ∷ b) h h' = ground (arith, lex_total a b)

-- `compareslObj` is the dictionary order, and `equalslObj` is equality of the bytes.
pub compare_obj-lex :
    (a b : List ℕ) → (is_neg (compare_obj a b) ≡ lex a b) × ((equals_obj a b ≡ true) ↔ (a ≡ b))
compare_obj-lex a b =
    (compare-lex a b, (equals_obj-eq a b, λ e. ap (equals_obj a) (sym e) ∙ equals_obj_refl a))
