-- ===== src/SkipList/Query/Reach.antt =====
-- A sorted list cut where a test of the scores turns false.
use rillserver.Prelude.{
  ℕ, ◌≤◌, ◌≡◌, refl, ap, sym, subst, ◌∙◌, arith, Bool, true, false, ◌&&◌, not, Option, none, some,
  List, [], ◌∷◌, ◌++◌, if◌then◌else◌, ltb, leb, Bool-cases, inl, inr,
}
use rillserver.SkipList.{Nodes}
use rillserver.SkipList.Wired.{next_at}
use rillserver.SkipList.Order.{Element, element, elements, AllFollow, IsSorted}
use rillserver.SkipList.Inv.{AllTowers, end_of}

abbrev pub first : List ℕ → Option ℕ
first [] = none
first (b ∷ xs) = some b

abbrev pub has : Option ℕ → Bool
has none = false
has (some b) = true

abbrev or_else : Option ℕ → ℕ → Option ℕ
or_else none b = some b
or_else (some c) b = some c

-- The first node whose score fails a test, and the last one whose score passes it.
abbrev pub first_not : (ℕ → Bool) → Nodes → List ℕ → Option ℕ
first_not p s [] = none
first_not p s (b ∷ xs) = if p (s b).score then first_not p s xs else some b

abbrev pub last_that : (ℕ → Bool) → Nodes → List ℕ → Option ℕ
last_that p s [] = none
last_that p s (b ∷ xs) = elim (last_that p s xs) [
  | none ↦ if p (s b).score then some b else none
  | some c ↦ some c
]

-- Some score is not below the range, and some score is not above it.
abbrev pub in_reach : Nodes → ℕ → ℕ → List ℕ → Bool
in_reach s least most xs =
    leb least most
    && (has (first_not (λ n. ltb n least) s xs) && has (last_that (λ n. leb n most) s xs))

abbrev pub AllScores : Bool → (ℕ → Bool) → Nodes → List ℕ → Type 0
AllScores v p s [] = Unit
AllScores v p s (b ∷ xs) = (p (s b).score ≡ v) × AllScores v p s xs

-- A score is there and fails, or passes.
abbrev pub tail_test : (ℕ → Bool) → Nodes → Option ℕ → Bool
tail_test p s none = false
tail_test p s (some t) = not (p (s t).score)

abbrev pub head_test : (ℕ → Bool) → Nodes → Option ℕ → Bool
head_test p s none = false
head_test p s (some l) = p (s l).score

-- The nodes up to the place where a test of the scores turns false.
pub record Cut (p : ℕ → Bool) (s : Nodes) (xs : List ℕ) : Type 0 where
  pub before : List ℕ
  pub behind : List ℕ
  pub cut : xs ≡ before ++ behind
  pub pass : AllScores true p s before
  pub fail : AllScores false p s behind

end_or : (b : ℕ) (xs : List ℕ) → end_of (some b) xs ≡ or_else (end_of none xs) b
end_or b [] = refl
end_or b (c ∷ ys) = end_or c ys ∙ twice (end_of none ys) ∙ ap (λ o. or_else o b) (sym (end_or c ys))
  where
    twice : (o : Option ℕ) → or_else o c ≡ or_else (or_else o c) b
    twice none = refl
    twice (some d) = refl

module _ (p : ℕ → Bool) (s : Nodes) where
  pub first_not-cut :
      (xs ys : List ℕ)
      → AllScores true p s xs
      → AllScores false p s ys
      → first_not p s (xs ++ ys) ≡ first ys
  first_not-cut [] [] t f = refl
  first_not-cut [] (b ∷ ys) t f = rw f.0
  first_not-cut (b ∷ xs) ys t f = rw t.0 (first_not-cut xs ys t.1 f)

  last_that-none : (ys : List ℕ) → AllScores false p s ys → last_that p s ys ≡ none
  last_that-none [] f = refl
  last_that-none (b ∷ ys) f = rw (last_that-none ys f.1, f.0)

  pub last_that-cut :
      (xs ys : List ℕ)
      → AllScores true p s xs
      → AllScores false p s ys
      → last_that p s (xs ++ ys) ≡ end_of none xs
  last_that-cut [] ys t f = last_that-none ys f
  last_that-cut (b ∷ xs) ys t f =
      rw (last_that-cut xs ys t.1 f) (at_end (end_of none xs)) ∙ sym (end_or b xs)
    where
      at_end :
          (o : Option ℕ)
          → elim o as (λ k. Option ℕ) [
            | none ↦ if p (s b).score then some b else none
            | some c ↦ some c
          ]
            ≡ or_else o b
      at_end none = rw t.0
      at_end (some c) = refl

  -- The last node of a list that fails, and of one that passes.
  tail_fails :
      (b : ℕ) (ys : List ℕ)
      → p (s b).score ≡ false
      → AllScores false p s ys
      → (t : ℕ) × ((end_of (some b) ys ≡ some t) × (p (s t).score ≡ false))
  tail_fails b [] e f = (b, (refl, e))
  tail_fails b (c ∷ ys) e f = tail_fails c ys f.0 f.1

  tail_passes :
      (b : ℕ) (xs : List ℕ)
      → p (s b).score ≡ true
      → AllScores true p s xs
      → (t : ℕ) × ((end_of (some b) xs ≡ some t) × (p (s t).score ≡ true))
  tail_passes b [] e f = (b, (refl, e))
  tail_passes b (c ∷ ys) e f = tail_passes c ys f.0 f.1

  -- The test of the tail, and that of the first node.
  tail_reach :
      (xs ys : List ℕ)
      → AllScores true p s xs
      → AllScores false p s ys
      → tail_test p s (end_of none (xs ++ ys)) ≡ has (first ys)
  tail_reach [] [] t f = refl
  tail_reach [] (b ∷ ys) t f = let (l, (at_l, fails)) = tail_fails b ys f.0 f.1 in rw (at_l, fails)
  tail_reach (b ∷ []) [] t f = rw t.0
  tail_reach (b ∷ []) (c ∷ ys) t f = tail_reach [] (c ∷ ys) tt f
  tail_reach (b ∷ c ∷ xs) ys t f = tail_reach (c ∷ xs) ys t.1 f

  head_reach :
      (xs ys : List ℕ)
      → AllScores true p s xs
      → AllScores false p s ys
      → head_test p s (first (xs ++ ys)) ≡ has (end_of none xs)
  head_reach [] [] t f = refl
  head_reach [] (b ∷ ys) t f = rw f.0
  head_reach (b ∷ xs) ys t f = let (l, (at_l, passes)) = tail_passes b xs t.0 t.1 in rw (t.0, at_l)

  pub tail_reach-Cut :
      (xs : List ℕ) → Cut p s xs → tail_test p s (end_of none xs) ≡ has (first_not p s xs)
  tail_reach-Cut xs c =
      subst (λ l. tail_test p s (end_of none l) ≡ has (first_not p s l)) (sym c.cut)
        (tail_reach c.before c.behind c.pass c.fail
          ∙ ap has (sym (first_not-cut c.before c.behind c.pass c.fail)))

  pub head_reach-Cut :
      (xs : List ℕ) → Cut p s xs → head_test p s (first xs) ≡ has (last_that p s xs)
  head_reach-Cut xs c =
      subst (λ l. head_test p s (first l) ≡ has (last_that p s l)) (sym c.cut)
        (head_reach c.before c.behind c.pass c.fail
          ∙ ap has (sym (last_that-cut c.before c.behind c.pass c.fail)))

  module _ (down : (m n : ℕ) → m ≤ n → p n ≡ true → p m ≡ true) where
    all_fail :
        (e : Element) (ys : List ℕ)
        → p e.score ≡ false
        → AllFollow e (elements s ys)
        → AllScores false p s ys
    all_fail e [] f w = tt
    all_fail e (b ∷ ys) f w = (
      elim (Bool-cases (p (s b).score)) [
        | inl pass ↦
            let low : e.score ≤ (s b).score = ground (arith, w.0) in
            let h : p e.score ≡ true = down e.score (s b).score low pass in absurd (cc)
        | inr fail ↦ fail
      ],
      all_fail e ys f w.1,
    )

    pub Cut-of : (xs : List ℕ) → IsSorted (elements s xs) → Cut p s xs
    Cut-of [] w = record { before = []; behind = []; cut = refl; pass = tt; fail = tt }
    Cut-of (b ∷ xs) w = elim (Bool-cases (p (s b).score)) [
      | inl pass ↦
          let c = Cut-of xs w.1 in
          record {
            before = b ∷ c.before;
            behind = c.behind;
            cut = ap (λ l. b ∷ l) c.cut;
            pass = (pass, c.pass);
            fail = c.fail;
          }
      | inr fail ↦ record {
        before = [];
        behind = b ∷ xs;
        cut = refl;
        pass = tt;
        fail = (fail, all_fail (element (s b)) xs fail w.0);
      }
    ]

-- The lowest level leads to the next node.
pub forward-first :
    (height : ℕ → ℕ) (header top : ℕ) (ys : List ℕ)
    → AllTowers height top ys
    → (next_at height header 0 ys).forward ≡ first ys
forward-first height header top [] t = refl
forward-first height header top (b ∷ ys) t =
    let up : ltb 0 (height b) ≡ true = ground arith in rw up
