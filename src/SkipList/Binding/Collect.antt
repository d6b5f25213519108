-- ===== src/SkipList/Binding/Collect.antt =====
-- The walks of `_get_score_range` from its first node.
use rillserver.Prelude.{
  ℕ, zero, suc, ◌<◌, ◌≤◌, ◌≡◌, refl, ap, sym, ◌∙◌, arith, true, false, ◌&&◌, Option, List, [], ◌∷◌,
  ◌++◌, length, ltb, leb, if◌then◌else◌, Bool-cases, inl, inr,
}
use rillserver.SkipList.{Nodes}
use rillserver.SkipList.Order.{Element, element, elements, AllFollow, IsSorted}
use rillserver.SkipList.Query.Reach.{first, AllScores}
use rillserver.SkipList.Binding.{collect_scores}
use rillserver.SkipList.Binding.Walks.{Forwards, Backwards, reversed, AllUpTo, IsDescending}

-- The objects of the nodes whose scores are in a range, both ends included.
abbrev pub objs_of_scores : Nodes → ℕ → ℕ → List ℕ → List (Option (List ℕ))
objs_of_scores s least most [] = []
objs_of_scores s least most (b ∷ xs) =
    let rest = objs_of_scores s least most xs in
    if leb least (s b).score && leb (s b).score most then (s b).obj ∷ rest else rest

module _ (s : Nodes) (least most : ℕ) where
  pub none_low :
      (xs ys : List ℕ)
      → AllScores true (λ n. ltb n least) s xs
      → objs_of_scores s least most (xs ++ ys) ≡ objs_of_scores s least most ys
  none_low [] ys t = refl
  none_low (b ∷ xs) ys t =
      let out : (leb least (s b).score && leb (s b).score most) ≡ false = ground (arith, t.0) in
      rw (out, none_low xs ys t.1)

  pub none_high :
      (ys rs : List ℕ)
      → AllScores false (λ n. leb n most) s ys
      → objs_of_scores s least most (reversed ys rs) ≡ objs_of_scores s least most rs
  none_high [] rs t = refl
  none_high (b ∷ ys) rs t =
      let out : (leb least (s b).score && leb (s b).score most) ≡ false = ground (arith, t.0) in
      none_high ys (b ∷ rs) t.1 ∙ rw out

  pub all_high :
      (ys : List ℕ) → AllScores false (λ n. leb n most) s ys → objs_of_scores s least most ys ≡ []
  all_high [] t = refl
  all_high (b ∷ ys) t =
      let out : (leb least (s b).score && leb (s b).score most) ≡ false = ground (arith, t.0) in
      rw out (all_high ys t.1)

  pub all_low :
      (ys : List ℕ) → AllScores true (λ n. ltb n least) s ys → objs_of_scores s least most ys ≡ []
  all_low [] t = refl
  all_low (b ∷ ys) t =
      let out : (leb least (s b).score && leb (s b).score most) ≡ false = ground (arith, t.0) in
      rw out (all_low ys t.1)

  -- Behind a node above the range all are.
  pub above_all :
      (e : Element) (ys : List ℕ)
      → most < e.score
      → AllFollow e (elements s ys)
      → AllScores false (λ n. leb n most) s ys
  above_all e [] lt f = tt
  above_all e (b ∷ ys) lt f = (ground (arith, f.0), above_all e ys lt f.1)

  pub below_all :
      (b : ℕ) (rs : List ℕ)
      → (s b).score < least
      → AllUpTo s b rs
      → AllScores true (λ n. ltb n least) s rs
  below_all b [] lt u = tt
  below_all b (c ∷ rs) lt u = (ground (arith, u.0), below_all b rs lt u.1)

  -- The walk forward from a node that is not below the range.
  pub collect_forward :
      (fuel : ℕ) (ys : List ℕ)
      → length ys ≤ fuel
      → Forwards s ys
      → AllScores false (λ n. ltb n least) s ys
      → IsSorted (elements s ys)
      → collect_scores false most s fuel (first ys) ≡ objs_of_scores s least most ys
  unfolding collect_scores
  collect_forward zero [] le f t w = refl
  collect_forward (suc fuel) [] le f t w = refl
  collect_forward zero (b ∷ ys) le f t w = absurd (omega arith)
  collect_forward (suc fuel) (b ∷ ys) le f t w = elim (Bool-cases (ltb most (s b).score)) [
    | inl above ↦
        let out : (leb least (s b).score && leb (s b).score most) ≡ false = ground arith in
        rw (above, out) (sym (all_high ys (above_all (element (s b)) ys (ground arith) w.0)))
    | inr inside ↦
        let into : (leb least (s b).score && leb (s b).score most) ≡ true = ground (arith, t.0) in
        rw (inside, into, f.0)
          (ap (λ l. (s b).obj ∷ l) (collect_forward fuel ys (omega arith) f.1 t.1 w.1))
  ]

  -- The walk backward from a node that is not above it.
  pub collect_backward :
      (fuel : ℕ) (rs : List ℕ)
      → length rs ≤ fuel
      → Backwards s rs
      → AllScores true (λ n. leb n most) s rs
      → IsDescending s rs
      → collect_scores true least s fuel (first rs) ≡ objs_of_scores s least most rs
  unfolding collect_scores
  collect_backward zero [] le f t w = refl
  collect_backward (suc fuel) [] le f t w = refl
  collect_backward zero (b ∷ rs) le f t w = absurd (omega arith)
  collect_backward (suc fuel) (b ∷ rs) le f t w = elim (Bool-cases (ltb (s b).score least)) [
    | inl below ↦
        let out : (leb least (s b).score && leb (s b).score most) ≡ false = ground arith in
        rw (below, out) (sym (all_low rs (below_all b rs (ground arith) w.0)))
    | inr inside ↦
        let into : (leb least (s b).score && leb (s b).score most) ≡ true = ground (arith, t.0) in
        rw (inside, into, f.0)
          (ap (λ l. (s b).obj ∷ l) (collect_backward fuel rs (omega arith) f.1 t.1 w.1))
  ]
