-- ===== src/SkipList/Delete/Unlink.antt =====
-- What the loop of `slDeleteNode` writes, level by level, and where its levels end.
use rillserver.Prelude.{
  ℕ, zero, suc, ◌+◌, ◌<◌, ◌≤◌, ◌≡◌, refl, ap, subst, ◌∙◌, arith, true, false, ◌&&◌, Option, none,
  some, ltb, leb, ◌==◌, ==_iff, if◌then◌else◌, Bool-cases, ◌⊎◌, inl, inr,
}
use rillserver.SkipList.{Level, Nodes, set_level}
use rillserver.SkipList.Levels.{level-set_level}
use rillserver.SkipList.Fields.{SameValue, SameValue-refl, SameValue-trans, set_level-SameValue}
use rillserver.SkipList.Delete.{cut_level, unlink_levels, shrink}

module _ (found : ℕ → ℕ × ℕ) (x : ℕ) where
  -- what the loop leaves on level `j`
  abbrev pub unlinked : Nodes → ℕ → ℕ → Level
  unlinked s a j =
      if (found j).0 == a then cut_level x ((s a).level j) ((s x).level j) else (s a).level j

  abbrev unlink_round : ℕ → Nodes → Nodes
  unlink_round i s =
      let u = (found i).0 in set_level s u i (cut_level x ((s u).level i) ((s x).level i))

  level-unlink_round :
      (s : Nodes) (i a j : ℕ)
      → (unlink_round i s a).level j ≡ (if i == j then unlinked s a j else (s a).level j)
  level-unlink_round s i a j = elim (Bool-cases (i == j)) [
    | inl e ↦
        rw e (subst (λ k. (unlink_round i s a).level k ≡ unlinked s a k) ((==_iff i j).0 e) here)
    | inr e ↦ level-set_level s (found i).0 i _ a j ∙ rw e (ground arith)
  ]
    where
      cut : ℕ → Level
      cut p = cut_level x ((s p).level i) ((s x).level i)

      here : (unlink_round i s a).level i ≡ unlinked s a i
      here =
          level-set_level s (found i).0 i (cut (found i).0) a i
          ∙ rw ((==_iff i i).1 refl) (at_a (Bool-cases ((found i).0 == a)))
        where
          at_a :
              (((found i).0 == a) ≡ true) ⊎ (((found i).0 == a) ≡ false)
              → (if ((found i).0 == a) && true then cut (found i).0 else (s a).level i)
                ≡ unlinked s a i
          at_a (inl e) = rw e (ap cut ((==_iff (found i).0 a).0 e))
          at_a (inr e) = rw e

  unlinked-later :
      (s : Nodes) (i a j : ℕ) → i < j → unlinked (unlink_round i s) a j ≡ unlinked s a j
  unlinked-later s i a j lt =
      let apart : (i == j) ≡ false = ground arith in
      let at_x : (unlink_round i s x).level j ≡ (s x).level j =
        level-unlink_round s i x j ∙ rw apart in
      let at_a : (unlink_round i s a).level j ≡ (s a).level j =
        level-unlink_round s i a j ∙ rw apart in
      rw (at_x, at_a)

  pub level-unlink_levels :
      (n i : ℕ) (s : Nodes) (a j : ℕ)
      → (unlink_levels n i found x s a).level j
        ≡ (if leb i j && ltb j (i + n) then unlinked s a j else (s a).level j)
  unfolding unlink_levels
  level-unlink_levels zero i s a j = ground arith
  level-unlink_levels (suc n) i s a j =
      level-unlink_levels n (i + 1) (unlink_round i s) a j ∙ at_level (Bool-cases (leb (i + 1) j))
    where
      at_level :
          (leb (i + 1) j ≡ true) ⊎ (leb (i + 1) j ≡ false)
          → (if leb (i + 1) j && ltb j (i + 1 + n)
              then unlinked (unlink_round i s) a j
              else (unlink_round i s a).level j)
            ≡ (if leb i j && ltb j (i + suc n) then unlinked s a j else (s a).level j)
      at_level (inl e) =
          rw (unlinked-later s i a j (ground arith), level-unlink_round s i a j) (ground arith)
      at_level (inr e) = rw (level-unlink_round s i a j) (ground arith)

pub unlink_levels-SameValue :
    (n i : ℕ) (found : ℕ → ℕ × ℕ) (x : ℕ) (s : Nodes) (a : ℕ)
    → SameValue (s a) (unlink_levels n i found x s a)
unfolding unlink_levels
unlink_levels-SameValue zero i found x s a = SameValue-refl (s a)
unlink_levels-SameValue (suc n) i found x s a =
    SameValue-trans (s a) _ _ (set_level-SameValue s (found i).0 i _ a)
      (unlink_levels-SameValue n (i + 1) found x _ a)

-- The levels that `shrink` drops are empty, and the one that it stops at is not.
pub record Shrunk (levels : ℕ → Level) (n : ℕ) : Type 0 where
  pub at_least : 1 ≤ shrink levels n
  pub at_most : shrink levels n ≤ n
  pub dropped : (j : ℕ) → shrink levels n ≤ j → j < n → (levels j).forward ≡ none

pub shrink-Shrunk : (levels : ℕ → Level) (n : ℕ) → 1 ≤ n → Shrunk levels n
unfolding shrink
shrink-Shrunk levels zero up = absurd (omega arith)
shrink-Shrunk levels (suc zero) up = record {
  at_least = omega arith;
  at_most = omega arith;
  dropped = λ j le lt. absurd (omega arith);
}
shrink-Shrunk levels (suc (suc n)) up =
    at_top (levels (suc n)).forward refl (shrink-Shrunk levels (suc n) (omega arith))
  where
    at_top :
        (o : Option ℕ)
        → (levels (suc n)).forward ≡ o
        → Shrunk levels (suc n)
        → Shrunk levels (suc (suc n))
    at_top none e low =
        let same : shrink levels (suc (suc n)) ≡ shrink levels (suc n) = rw (shrink, e) in
        record {
          at_least = omega (arith, low.at_least, same);
          at_most = omega (arith, low.at_most, same);
          dropped = λ j le lt. elim (Bool-cases (j == suc n)) [
            | inl is_n ↦ ap (λ (k : ℕ). (levels k).forward) ((==_iff j (suc n)).0 is_n) ∙ e
            | inr below ↦ low.dropped j (omega (arith, le, same)) (ground arith)
          ];
        }
    at_top (some y) e low =
        let same : shrink levels (suc (suc n)) ≡ suc (suc n) = rw (shrink, e) in
        record {
          at_least = omega (arith, same);
          at_most = omega (arith, same);
          dropped = λ j le lt. absurd (omega (arith, le, lt, same));
        }
