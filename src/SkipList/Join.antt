-- ===== src/SkipList/Join.antt =====
-- The links after the loops of `slInsert`: those of the nodes with one more among them.
use rillserver.Prelude.{
  ℕ, suc, ◌+◌, ◌-◌, ◌<◌, ◌≤◌, ◌≡◌, ◌≢◌, refl, ap, sym, subst, ◌∙◌, arith, true, false, some, List,
  [], ◌∷◌, ◌++◌, length, ltb, ◌==◌, ==_iff, if◌then◌else◌, Bool-cases, inl, inr, lt→ltb, ltb→lt,
}
use rillserver.Prelude.Distinct.{NotIn}
use rillserver.SkipList.{Level, Nodes}
use rillserver.SkipList.Wired.{next_at, IsWiredNode, WiredBefore, WiredAfter, last_at, onto}
use rillserver.SkipList.Search.{farther_eq}
use rillserver.SkipList.Levels.{linked, bumped}
use rillserver.SkipList.Splice.{has_tall, next_at-tall, next_at-low, last_at-low, last_at-tall}

-- None of the header and `rs` occurs behind itself.
abbrev pub DistinctBefore : ℕ → List ℕ → List ℕ → Type 0
DistinctBefore header [] xs = NotIn header xs
DistinctBefore header (b ∷ rs) xs = NotIn b xs × DistinctBefore header rs (b ∷ xs)

pub NotIn-left : (a : ℕ) (xs ys : List ℕ) → NotIn a (xs ++ ys) → NotIn a xs
NotIn-left a [] ys out = tt
NotIn-left a (b ∷ xs) ys out = (out.0, NotIn-left a xs ys out.1)

pub ne→==-false : (a b : ℕ) → a ≢ b → (a == b) ≡ false
ne→==-false a b ne = ground arith

-- No node is taller than the list.
abbrev pub AllLow : (ℕ → ℕ) → ℕ → List ℕ → Type 0
AllLow height top [] = Unit
AllLow height top (b ∷ xs) = (height b ≤ top) × AllLow height top xs

module _ (height : ℕ → ℕ) (header : ℕ) where
  pub last_at-out :
      (i : ℕ) (rs post : List ℕ)
      → DistinctBefore header rs post
      → NotIn (last_at height header i rs).0 post
  last_at-out i [] post d = d
  last_at-out i (b ∷ rs) post d = elim (Bool-cases (ltb i (height b))) [
    | inl tall ↦ rw tall d.0
    | inr low ↦ rw low (last_at-out i rs (b ∷ post) d.1).1
  ]

  -- The last node of a level points behind the place.
  pub last_level :
      (s : Nodes) (i : ℕ) (rs post : List ℕ)
      → i < height header
      → WiredBefore height header s rs post
      → let (u, r) = last_at height header i rs in
        (r ≤ length rs)
        × ((s u).level i ≡ record {
          forward = (next_at height header i post).forward;
          span = (length rs - r) + (next_at height header i post).span;
        })
  last_level s i [] post top w =
      (omega arith, w i top ∙ farther_eq (next_at height header i post).forward (omega arith))
  last_level s i (b ∷ rs) post top w = elim (Bool-cases (ltb i (height b))) [
    | inl tall ↦ rw tall (
      omega arith,
      w.0 i (ltb→lt i (height b) tall)
          ∙ farther_eq (next_at height header i post).forward (omega arith),
    )
    | inr low ↦
        let (le, e) = last_level s i rs (b ∷ post) top w.1 in
        let e' = rw low at e in
        rw low (
          omega (arith, le),
          e' ∙ farther_eq (next_at height header i post).forward (omega (arith, le)),
        )
  ]

  module _ (s : Nodes) (found : ℕ → ℕ × ℕ) (x level top : ℕ) (rs post : List ℕ)
      (tall_header : height header ≡ top) (tall_x : height x ≡ level) (in_top : level ≤ top)
      (level_up : 1 ≤ level) (path : (j : ℕ) → j < top → found j ≡ last_at height header j rs)
      (lowest : (last_at height header 0 rs).1 ≡ length rs) where
    -- what the loops leave on level `j` of node `a`
    abbrev pub level_after : ℕ → ℕ → Level
    level_after a j =
        if ltb j level
        then linked found x s a j
        else if ltb j top
        then bumped found x s a j
        else (s a).level j

    -- A node that is not the last of its level is left alone.
    untouched : (a j : ℕ) → a ≢ x → (j < top → (found j).0 ≢ a) → level_after a j ≡ (s a).level j
    untouched a j ne other =
        let not_x : (x == a) ≡ false = ne→==-false x a (λ e. ne (sym e)) in
        elim (Bool-cases (ltb j top)) [
          | inl inside ↦
              let not_u : ((found j).0 == a) ≡ false =
                ne→==-false _ _ (other (ltb→lt j top inside)) in
              elim (Bool-cases (ltb j level)) [
                | inl e ↦ rw (e, not_x, not_u)
                | inr e ↦ rw (e, inside, not_u)
              ]
          | inr outside ↦ let e : ltb j level ≡ false = ground arith in rw (e, outside)
        ]

    crossed_all : (found 0).1 ≡ length rs
    crossed_all = ap (λ (p : ℕ × ℕ). p.1) (path 0 (omega arith)) ∙ lowest

    -- A node before the place, with `mid` between.
    node_before :
        (a rank : ℕ) (before mid : List ℕ)
        → rs ≡ onto height header mid before
        → a ≢ x
        → NotIn a mid
        → height a ≤ top
        → rank + length mid ≡ length rs
        → ((j : ℕ) → j < height a → last_at height header j before ≡ (a, rank))
        → IsWiredNode height header s a (mid ++ post)
        → (j : ℕ) → j < height a
        → level_after a j ≡ next_at height header j (mid ++ (x ∷ post))
    node_before a rank before mid split ne out low_a place at w j lt =
        elim (Bool-cases (has_tall height header j mid)) [
          | inl tall ↦
              untouched a j ne (λ below.
                subst (λ (u : ℕ × ℕ). u.0 ≢ a)
                  (sym (path j below ∙ ap (last_at height header j) split))
                  (last_at-tall height header j a mid before tall out))
              ∙ w j lt
              ∙ next_at-tall height header j mid post (x ∷ post) tall
          | inr low ↦
              let here : found j ≡ (a, rank) =
                path j (omega arith)
                ∙ ap (last_at height header j) split
                ∙ last_at-low height header j mid before low
                ∙ at j lt in
              let old : (s a).level j ≡ record {
                forward = (next_at height header j post).forward;
                span = length mid + (next_at height header j post).span;
              } =
                w j lt ∙ next_at-low height header j mid post low in
              let not_x : (x == a) ≡ false = ne→==-false x a (λ e. ne (sym e)) in
              let is_a : (a == a) ≡ true = (==_iff a a).1 refl in
              elim (Bool-cases (ltb j level)) [
                | inl e ↦
                    let tall_enough : ltb j (height x) ≡ true = ground (arith, tall_x) in
                    rw
                      (
                        e,
                        not_x,
                        here,
                        is_a,
                        crossed_all,
                        next_at-low height header j mid (x ∷ post) low,
                        tall_enough,
                      )
                      (farther_eq (some x) (omega (arith, place)))
                | inr e ↦
                    let inside : ltb j top ≡ true = lt→ltb j top (omega arith) in
                    let too_low : ltb j (height x) ≡ false = ground (arith, tall_x) in
                    rw
                      (
                        e,
                        inside,
                        here,
                        is_a,
                        old,
                        next_at-low height header j mid (x ∷ post) low,
                        too_low,
                      )
                      (farther_eq (next_at height header j post).forward (omega arith))
              ]
        ]

    -- The new node points behind the place.
    pub node_new :
        (j : ℕ)
        → j < level
        → WiredBefore height header s rs post
        → level_after x j ≡ next_at height header j post
    node_new j lt w =
        let (le, e) = last_level s j rs post (omega (arith, tall_header)) w in
        let is_x : (x == x) ≡ true = (==_iff x x).1 refl in
        let here : found j ≡ last_at height header j rs = path j (omega arith) in
        rw (lt→ltb j level lt, is_x, here, e, crossed_all)
          (farther_eq (next_at height header j post).forward (omega arith))

    -- The nodes behind the place are left alone.
    pub nodes_after :
        (s' : Nodes) (ys : List ℕ)
        → ((a j : ℕ) → (s' a).level j ≡ level_after a j)
        → NotIn x ys
        → ((j : ℕ) → NotIn (last_at height header j rs).0 ys)
        → WiredAfter height header s ys
        → WiredAfter height header s' ys
    nodes_after s' [] eq out apart w = tt
    nodes_after s' (b ∷ ys) eq out apart w = (
      (λ j lt.
          eq b j
          ∙ untouched b j (λ e. out.0 (sym e))
              (λ below. subst (λ (u : ℕ × ℕ). u.0 ≢ b) (sym (path j below)) (apart j).0)
          ∙ w.0 j lt),
      nodes_after s' ys eq out.1 (λ j. (apart j).1) w.1,
    )

    -- The nodes before it, all the same.
    pub nodes_before :
        (s' : Nodes) (before mid : List ℕ)
        → ((a j : ℕ) → (s' a).level j ≡ level_after a j)
        → rs ≡ onto height header mid before
        → header ≢ x
        → NotIn x before
        → DistinctBefore header before (mid ++ post)
        → length before + length mid ≡ length rs
        → AllLow height top before
        → WiredBefore height header s before (mid ++ post)
        → WiredBefore height header s' before (mid ++ (x ∷ post))
    nodes_before s' [] mid eq split ne out d place low w = λ j lt.
        eq header j
        ∙ node_before header 0 [] mid split ne (NotIn-left header mid post d)
            (omega (arith, tall_header)) place (λ k lt'. refl) w j lt
    nodes_before s' (b ∷ before) mid eq split ne out d place low w = (
      (λ j lt.
          eq b j
          ∙ node_before b (suc (length before)) (b ∷ before) mid split (λ e. out.0 (sym e))
              (NotIn-left b mid post d.0) low.0 place (λ k lt'. rw (lt→ltb k (height b) lt')) w.0 j
              lt),
      nodes_before s' before (b ∷ mid) eq split ne out.1 d.1 (omega (arith, place)) low.1 w.1,
    )
