-- ===== src/SkipList/Delete/Ranks.antt =====
-- The nodes of a list inside and outside a range of ranks.
use rillserver.Prelude.{
  ℕ, zero, suc, ◌+◌, ◌-◌, ◌≤◌, ◌≡◌, refl, ap, sym, subst, arith, false, ◌&&◌, Option, List, [], ◌∷◌,
  ◌++◌, length, ltb, leb, if◌then◌else◌, ◌⊎◌, inl, inr,
}
use rillserver.SkipList.{Nodes}
use rillserver.SkipList.Search.{Holds, HoldsBack}

-- The node behind the first `r` has rank `r + 1`.
abbrev pub without_ranks : ℕ → ℕ → ℕ → List ℕ → List ℕ
without_ranks start last r [] = []
without_ranks start last r (b ∷ xs) =
    let rest = without_ranks start last (suc r) xs in
    if leb start (suc r) && leb (suc r) last then rest else b ∷ rest

abbrev pub objs_of_ranks : Nodes → ℕ → ℕ → ℕ → List ℕ → List (Option (List ℕ))
objs_of_ranks s start last r [] = []
objs_of_ranks s start last r (b ∷ xs) =
    let rest = objs_of_ranks s start last (suc r) xs in
    if leb start (suc r) && leb (suc r) last then (s b).obj ∷ rest else rest

-- The first `n` nodes, or all.
pub record Front (n : ℕ) (xs : List ℕ) : Type 0 where
  pub before : List ℕ
  pub behind : List ℕ
  pub cut : xs ≡ before ++ behind
  pub short : length before ≤ n
  pub full : (behind ≡ []) ⊎ (length before ≡ n)

pub Front-of : (n : ℕ) (xs : List ℕ) → Front n xs
Front-of n [] = record {
  before = [];
  behind = [];
  cut = refl;
  short = omega arith;
  full = inl refl;
}
Front-of zero (b ∷ xs) = record {
  before = [];
  behind = b ∷ xs;
  cut = refl;
  short = omega arith;
  full = inr refl;
}
Front-of (suc n) (b ∷ xs) =
    let f = Front-of n xs in
    record {
      before = b ∷ f.before;
      behind = f.behind;
      cut = ap (λ l. b ∷ l) f.cut;
      short = omega (arith, f.short);
      full = elim f.full [ inl e ↦ inl e | inr e ↦ inr (ap suc e) ];
    }

module _ (start last : ℕ) where
  pub without_ranks-front :
      (r : ℕ) (xs ys : List ℕ)
      → r + length xs ≤ start - 1
      → without_ranks start last r (xs ++ ys) ≡ xs ++ without_ranks start last (r + length xs) ys
  without_ranks-front r [] ys le = ap (λ (k : ℕ). without_ranks start last k ys) (omega arith)
  without_ranks-front r (b ∷ xs) ys le =
      let low : leb start (suc r) ≡ false = ground arith in
      rw (low, without_ranks-front (suc r) xs ys (omega arith))
        (ap (λ (k : ℕ). b ∷ (xs ++ without_ranks start last k ys)) (omega arith))

  pub objs_of_ranks-front :
      (s : Nodes) (r : ℕ) (xs ys : List ℕ)
      → r + length xs ≤ start - 1
      → objs_of_ranks s start last r (xs ++ ys) ≡ objs_of_ranks s start last (r + length xs) ys
  objs_of_ranks-front s r [] ys le = ap (λ (k : ℕ). objs_of_ranks s start last k ys) (omega arith)
  objs_of_ranks-front s r (b ∷ xs) ys le =
      let low : leb start (suc r) ≡ false = ground arith in
      rw (low, objs_of_ranks-front s (suc r) xs ys (omega arith))
        (ap (λ (k : ℕ). objs_of_ranks s start last k ys) (omega arith))

  pub beyond_ranks :
      (s : Nodes) (r : ℕ) (xs : List ℕ)
      → last ≤ r
      → (without_ranks start last r xs ≡ xs) × (objs_of_ranks s start last r xs ≡ [])
  beyond_ranks s r [] le = (refl, refl)
  beyond_ranks s r (b ∷ xs) le =
      let high : (leb start (suc r) && leb (suc r) last) ≡ false = ground arith in
      let (rest, rest') = beyond_ranks s (suc r) xs (omega arith) in
      (rw (high, rest), rw high rest')

  -- The test of the search.
  pub front_holds :
      (s : Nodes) (rs : List ℕ) → length rs ≤ start - 1 → HoldsBack (λ r n. ltb r start) s rs
  front_holds s [] le = tt
  front_holds s (b ∷ rs) le = (ground arith, front_holds s rs (omega arith))

  fails_from :
      (s : Nodes) (r : ℕ) (xs : List ℕ) → start ≤ suc r → Holds false (λ r n. ltb r start) s r xs
  fails_from s r [] le = tt
  fails_from s r (b ∷ xs) le = (ground arith, fails_from s (suc r) xs (omega arith))

  pub Front-fails :
      (s : Nodes) (xs : List ℕ) (f : Front (start - 1) xs)
      → Holds false (λ r n. ltb r start) s (length f.before) f.behind
  Front-fails s xs f = elim f.full [
    | inl e ↦ subst (Holds false (λ r n. ltb r start) s (length f.before)) (sym e) tt
    | inr e ↦ fails_from s (length f.before) f.behind (omega (arith, e))
  ]
