-- ===== src/SkipList/Fields.antt =====
-- The loops of `slInsert` write levels only.
use rillserver.Prelude.{
  ℕ, zero, suc, ◌+◌, ◌-◌, ◌≡◌, refl, ap, ◌∙◌, some, ◌==◌, ==_iff, Bool-cases, inl, inr,
}
use rillserver.SkipList.{
  Level, Node, Nodes, SkipList, set_level, raise_levels, link_levels, bump_levels,
}

pub record SameValue (n n' : Node) : Type 0 where
  pub same_obj : n'.obj ≡ n.obj
  pub same_score : n'.score ≡ n.score
  pub same_backward : n'.backward ≡ n.backward

pub SameValue-refl : (n : Node) → SameValue n n
SameValue-refl n = record { same_obj = refl; same_score = refl; same_backward = refl }

pub SameValue-trans : (n m k : Node) → SameValue n m → SameValue m k → SameValue n k
SameValue-trans n m k a b = record {
  same_obj = b.same_obj ∙ a.same_obj;
  same_score = b.same_score ∙ a.same_score;
  same_backward = b.same_backward ∙ a.same_backward;
}

pub set_level-SameValue :
    (s : Nodes) (p i : ℕ) (l : Level) (a : ℕ) → SameValue (s a) (set_level s p i l a)
set_level-SameValue s p i l a = elim (Bool-cases (p == a)) [
  | inl e ↦
      let p_a : p ≡ a = (==_iff p a).0 e in
      rw e (record {
        same_obj = ap (λ (q : ℕ). (s q).obj) p_a;
        same_score = ap (λ (q : ℕ). (s q).score) p_a;
        same_backward = ap (λ (q : ℕ). (s q).backward) p_a;
      })
  | inr e ↦ rw e (SameValue-refl (s a))
]

pub raise_levels-SameValue :
    (n i : ℕ) (sl : SkipList) (s : Nodes) (found : ℕ → ℕ × ℕ) (a : ℕ)
    → SameValue (s a) ((raise_levels n i sl (s, found)).0 a)
unfolding raise_levels
raise_levels-SameValue zero i sl s found a = SameValue-refl (s a)
raise_levels-SameValue (suc n) i sl s found a =
    SameValue-trans (s a) _ _ (set_level-SameValue s sl.header i _ a)
      (raise_levels-SameValue n (i + 1) sl _ _ a)

pub link_levels-SameValue :
    (n i : ℕ) (found : ℕ → ℕ × ℕ) (x : ℕ) (s : Nodes) (a : ℕ)
    → SameValue (s a) (link_levels n i found x s a)
unfolding link_levels
link_levels-SameValue zero i found x s a = SameValue-refl (s a)
link_levels-SameValue (suc n) i found x s a =
    SameValue-trans (s a) (written a) _
      (SameValue-trans (s a) (set_level s x i new a) (written a) (set_level-SameValue s x i new a)
        (set_level-SameValue (set_level s x i new) (found i).0 i shorter a))
      (link_levels-SameValue n (i + 1) found x written a)
  where
    new : Level
    new = record {
      forward = ((s (found i).0).level i).forward;
      span = ((s (found i).0).level i).span - ((found 0).1 - (found i).1);
    }

    shorter : Level
    shorter = record { forward = some x; span = ((found 0).1 - (found i).1) + 1 }

    written : Nodes
    written = set_level (set_level s x i new) (found i).0 i shorter

pub bump_levels-SameValue :
    (n i : ℕ) (found : ℕ → ℕ × ℕ) (s : Nodes) (a : ℕ) → SameValue (s a) (bump_levels n i found s a)
unfolding bump_levels
bump_levels-SameValue zero i found s a = SameValue-refl (s a)
bump_levels-SameValue (suc n) i found s a =
    SameValue-trans (s a) _ _ (set_level-SameValue s (found i).0 i _ a)
      (bump_levels-SameValue n (i + 1) found _ a)
