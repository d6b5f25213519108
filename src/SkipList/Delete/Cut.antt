-- ===== src/SkipList/Delete/Cut.antt =====
-- The links after the loop of `slDeleteNode`: those of the nodes without one of them.
use rillserver.Prelude.{
  ℕ, suc, ◌+◌, ◌<◌, ◌≤◌, ◌≡◌, ◌≢◌, refl, ap, sym, subst, ◌∙◌, arith, true, false, List, [], ◌∷◌,
  ◌++◌, length, ltb, ◌==◌, ==_iff, if◌then◌else◌, Bool-cases, inl, inr, lt→ltb, ltb→lt,
}
use rillserver.Prelude.Distinct.{NotIn}
use rillserver.SkipList.{Level, Nodes}
use rillserver.SkipList.Wired.{next_at, IsWiredNode, WiredBefore, WiredAfter, last_at, onto}
use rillserver.SkipList.Search.{farther_eq}
use rillserver.SkipList.Splice.{has_tall, next_at-tall, next_at-low, last_at-low, last_at-tall}
use rillserver.SkipList.Join.{DistinctBefore, AllLow, NotIn-left, ne→==-false}
use rillserver.SkipList.Delete.{is_node, cut_level}
use rillserver.SkipList.Delete.Unlink.{unlinked}

module _ (height : ℕ → ℕ) (header : ℕ) where
  is_node-next_at :
      (x i : ℕ) (xs : List ℕ) → NotIn x xs → is_node (next_at height header i xs).forward x ≡ false
  is_node-next_at x i [] out = refl
  is_node-next_at x i (b ∷ xs) out = elim (Bool-cases (ltb i (height b))) [
    | inl tall ↦ rw tall (ne→==-false b x (λ e. out.0 (sym e)))
    | inr low ↦ rw low (is_node-next_at x i xs out.1)
  ]

  module _ (s : Nodes) (found : ℕ → ℕ × ℕ) (x top : ℕ) (rs post : List ℕ)
      (tall_header : height header ≡ top)
      (path : (j : ℕ) → j < top → found j ≡ last_at height header j rs) (x_out : NotIn x post)
      (wired_x : IsWiredNode height header s x post) where
    -- what the loop leaves on level `j` of node `a`
    abbrev pub level_cut : ℕ → ℕ → Level
    level_cut a j = if ltb j top then unlinked found x s a j else (s a).level j

    -- A node that is not the last of its level is left alone.
    untouched : (a j : ℕ) → (j < top → (found j).0 ≢ a) → level_cut a j ≡ (s a).level j
    untouched a j other = elim (Bool-cases (ltb j top)) [
      | inl inside ↦
          let not_u : ((found j).0 == a) ≡ false = ne→==-false _ _ (other (ltb→lt j top inside)) in
          rw (inside, not_u)
      | inr outside ↦ rw outside
    ]

    -- The last node of a level, with `mid` between.
    cut_last :
        (a j : ℕ) (mid : List ℕ)
        → (s a).level j ≡ record {
          forward = (next_at height header j (x ∷ post)).forward;
          span = length mid + (next_at height header j (x ∷ post)).span;
        }
        → cut_level x ((s a).level j) ((s x).level j) ≡ record {
          forward = (next_at height header j post).forward;
          span = length mid + (next_at height header j post).span;
        }
    cut_last a j mid old = elim (Bool-cases (ltb j (height x))) [
      | inl tall ↦
          let mine : (s x).level j ≡ next_at height header j post =
            wired_x j (ltb→lt j (height x) tall) in
          let self : (x == x) ≡ true = (==_iff x x).1 refl in
          rw (old, mine, tall, self)
            (farther_eq (next_at height header j post).forward (omega arith))
      | inr low ↦
          rw (old, low, is_node-next_at x j post x_out)
            (farther_eq (next_at height header j post).forward (omega arith))
    ]

    node_before :
        (a rank : ℕ) (before mid : List ℕ)
        → rs ≡ onto height header mid before
        → NotIn a mid
        → height a ≤ top
        → ((j : ℕ) → j < height a → last_at height header j before ≡ (a, rank))
        → IsWiredNode height header s a (mid ++ (x ∷ post))
        → (j : ℕ) → j < height a
        → level_cut a j ≡ next_at height header j (mid ++ post)
    node_before a rank before mid split out low_a at w j lt =
        elim (Bool-cases (has_tall height header j mid)) [
          | inl tall ↦
              untouched a j (λ below.
                subst (λ (u : ℕ × ℕ). u.0 ≢ a)
                  (sym (path j below ∙ ap (last_at height header j) split))
                  (last_at-tall height header j a mid before tall out))
              ∙ w j lt
              ∙ next_at-tall height header j mid (x ∷ post) post tall
          | inr low ↦
              let here : found j ≡ (a, rank) =
                path j (omega arith)
                ∙ ap (last_at height header j) split
                ∙ last_at-low height header j mid before low
                ∙ at j lt in
              let is_a : (a == a) ≡ true = (==_iff a a).1 refl in
              let inside : ltb j top ≡ true = lt→ltb j top (omega arith) in
              rw (inside, here, is_a)
                (cut_last a j mid (w j lt ∙ next_at-low height header j mid (x ∷ post) low))
              ∙ sym (next_at-low height header j mid post low)
        ]

    -- The nodes behind the place are left alone.
    pub cut_after :
        (s' : Nodes) (ys : List ℕ)
        → ((a j : ℕ) → (s' a).level j ≡ level_cut a j)
        → ((j : ℕ) → NotIn (last_at height header j rs).0 ys)
        → WiredAfter height header s ys
        → WiredAfter height header s' ys
    cut_after s' [] eq apart w = tt
    cut_after s' (b ∷ ys) eq apart w = (
      (λ j lt.
          eq b j
          ∙ untouched b j (λ below. subst (λ (u : ℕ × ℕ). u.0 ≢ b) (sym (path j below)) (apart j).0)
          ∙ w.0 j lt),
      cut_after s' ys eq (λ j. (apart j).1) w.1,
    )

    -- The nodes before it, all the same.
    pub cut_before :
        (s' : Nodes) (before mid : List ℕ)
        → ((a j : ℕ) → (s' a).level j ≡ level_cut a j)
        → rs ≡ onto height header mid before
        → DistinctBefore header before (mid ++ (x ∷ post))
        → AllLow height top before
        → WiredBefore height header s before (mid ++ (x ∷ post))
        → WiredBefore height header s' before (mid ++ post)
    cut_before s' [] mid eq split d low w = λ j lt.
        eq header j
        ∙ node_before header 0 [] mid split (NotIn-left header mid (x ∷ post) d)
            (omega (arith, tall_header)) (λ k lt'. refl) w j lt
    cut_before s' (b ∷ before) mid eq split d low w = (
      (λ j lt.
          eq b j
          ∙ node_before b (suc (length before)) (b ∷ before) mid split
              (NotIn-left b mid (x ∷ post) d.0) low.0 (λ k lt'. rw (lt→ltb k (height b) lt')) w.0 j
              lt),
      cut_before s' before (b ∷ mid) eq split d.1 low.1 w.1,
    )
