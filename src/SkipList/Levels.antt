-- ===== src/SkipList/Levels.antt =====
-- What the loops of `slInsert` write, level by level.
use rillserver.Prelude.{
  ℕ, zero, suc, ◌+◌, ◌-◌, ◌<◌, ◌≡◌, ◌≢◌, refl, ap, sym, subst, ap₂, ◌∙◌, arith, true, false, ◌&&◌,
  some, ltb, leb, ◌==◌, ==_iff, if◌then◌else◌, Bool-cases, ◌⊎◌, inl, inr,
}
use rillserver.Prelude.Ring.{update}
use rillserver.SkipList.{Level, Nodes, SkipList, set_level, raise_levels, link_levels, bump_levels}

-- A write of a level, read back.
pub level-set_level :
    (s : Nodes) (p i : ℕ) (l : Level) (a j : ℕ)
    → (set_level s p i l a).level j ≡ (if (p == a) && (i == j) then l else (s a).level j)
level-set_level s p i l a j = elim (Bool-cases (p == a)) [
  | inl e ↦ rw e (elim (Bool-cases (i == j)) [
    | inl e' ↦ rw e'
    | inr e' ↦ rw e' (ap (λ (q : ℕ). (s q).level j) ((==_iff p a).0 e))
  ])
  | inr e ↦ rw e
]

-- Two writes of one level.
level-two_writes :
    (s : Nodes) (p q i : ℕ) (l m : Level) (a j : ℕ)
    → q ≢ p
    → (set_level (set_level s p i l) q i m a).level j ≡ (
        if i == j
        then (if p == a then l else if q == a then m else (s a).level j)
        else (s a).level j)
level-two_writes s p q i l m a j ne =
    level-set_level (set_level s p i l) q i m a j
    ∙ rw (level-set_level s p i l a j)
        (pick (Bool-cases (p == a)) (Bool-cases (q == a)) (Bool-cases (i == j)))
  where
    pick :
        ((p == a) ≡ true) ⊎ ((p == a) ≡ false)
        → ((q == a) ≡ true) ⊎ ((q == a) ≡ false)
        → ((i == j) ≡ true) ⊎ ((i == j) ≡ false)
        → (if (q == a) && (i == j) then m else if (p == a) && (i == j) then l else (s a).level j)
          ≡ (if i == j
              then (if p == a then l else if q == a then m else (s a).level j)
              else (s a).level j)
    pick (inl e) (inl e') k = absurd (ne ((==_iff q a).0 e' ∙ sym ((==_iff p a).0 e)))
    pick (inl e) (inr e') (inl k) = rw (e, e', k)
    pick (inl e) (inr e') (inr k) = rw (e, e', k)
    pick (inr e) (inl e') (inl k) = rw (e, e', k)
    pick (inr e) (inl e') (inr k) = rw (e, e', k)
    pick (inr e) (inr e') (inl k) = rw (e, e', k)
    pick (inr e) (inr e') (inr k) = rw (e, e', k)

module _ (found : ℕ → ℕ × ℕ) (x : ℕ) where
  -- what the first loop leaves on level `j`
  abbrev pub linked : Nodes → ℕ → ℕ → Level
  linked s a j =
      let (u, r) = found j in
      let old = (s u).level j in
      let crossed = (found 0).1 - r in
      if x == a
      then record { forward = old.forward; span = old.span - crossed }
      else if u == a
      then record { forward = some x; span = crossed + 1 }
      else (s a).level j

  -- one round of it
  abbrev link_round : ℕ → Nodes → Nodes
  link_round i s =
      let (u, r) = found i in
      let old = (s u).level i in
      let crossed = (found 0).1 - r in
      let s' = set_level s x i (record { forward = old.forward; span = old.span - crossed }) in
      set_level s' u i (record { forward = some x; span = crossed + 1 })

  level-link_round :
      (s : Nodes) (i a j : ℕ)
      → (found i).0 ≢ x
      → (link_round i s a).level j ≡ (if i == j then linked s a j else (s a).level j)
  level-link_round s i a j ne = elim (Bool-cases (i == j)) [
    | inl e ↦ rw e (subst (λ k. (link_round i s a).level k ≡ linked s a k) ((==_iff i j).0 e) here)
    | inr e ↦ level-two_writes s x (found i).0 i _ _ a j ne ∙ rw e
  ]
    where
      here : (link_round i s a).level i ≡ linked s a i
      here = level-two_writes s x (found i).0 i _ _ a i ne ∙ rw ((==_iff i i).1 refl)

  linked-link_round :
      (s : Nodes) (i a j : ℕ) → (found i).0 ≢ x → i < j → linked (link_round i s) a j ≡ linked s a j
  linked-link_round s i a j ne lt =
      let apart : (i == j) ≡ false = ground arith in
      let at_u : (link_round i s (found j).0).level j ≡ (s (found j).0).level j =
        level-link_round s i (found j).0 j ne ∙ rw apart in
      let at_a : (link_round i s a).level j ≡ (s a).level j =
        level-link_round s i a j ne ∙ rw apart in
      rw (at_u, at_a)

  -- The loop over the levels of the new node.
  pub level-link_levels :
      (n i : ℕ) (s : Nodes) (a j : ℕ)
      → ((k : ℕ) → k < i + n → (found k).0 ≢ x)
      → (link_levels n i found x s a).level j
        ≡ (if leb i j && ltb j (i + n) then linked s a j else (s a).level j)
  unfolding link_levels
  level-link_levels zero i s a j ne = ground arith
  level-link_levels (suc n) i s a j ne =
      level-link_levels n (i + 1) (link_round i s) a j (λ k lt. ne k (omega arith))
      ∙ at_level (Bool-cases (leb (i + 1) j)) (Bool-cases (ltb j (i + suc n)))
    where
      at_level :
          (leb (i + 1) j ≡ true) ⊎ (leb (i + 1) j ≡ false)
          → (ltb j (i + suc n) ≡ true) ⊎ (ltb j (i + suc n) ≡ false)
          → (if leb (i + 1) j && ltb j (i + 1 + n)
              then linked (link_round i s) a j
              else (link_round i s a).level j)
            ≡ (if leb i j && ltb j (i + suc n) then linked s a j else (s a).level j)
      at_level (inl e) below =
          rw
            (
              linked-link_round s i a j (ne i (omega arith)) (ground arith),
              level-link_round s i a j (ne i (omega arith)),
            )
            (ground arith)
      at_level (inr e) below = rw (level-link_round s i a j (ne i (omega arith))) (ground arith)

  -- what the second loop leaves on level `j`
  abbrev pub bumped : Nodes → ℕ → ℕ → Level
  bumped s a j =
      if (found j).0 == a
      then record ((s a).level j) { span = ((s a).level j).span + 1 }
      else (s a).level j

  abbrev bump_round : ℕ → Nodes → Nodes
  bump_round i s =
      let u = (found i).0 in
      let old = (s u).level i in set_level s u i (record old { span = old.span + 1 })

  level-bump_round :
      (s : Nodes) (i a j : ℕ)
      → (bump_round i s a).level j ≡ (if i == j then bumped s a j else (s a).level j)
  level-bump_round s i a j = elim (Bool-cases (i == j)) [
    | inl e ↦ rw e (subst (λ k. (bump_round i s a).level k ≡ bumped s a k) ((==_iff i j).0 e) here)
    | inr e ↦ level-set_level s (found i).0 i _ a j ∙ rw e (ground arith)
  ]
    where
      raised : ℕ → Level
      raised p = record ((s p).level i) { span = ((s p).level i).span + 1 }

      here : (bump_round i s a).level i ≡ bumped s a i
      here =
          level-set_level s (found i).0 i (raised (found i).0) a i
          ∙ rw ((==_iff i i).1 refl) (at_a (Bool-cases ((found i).0 == a)))
        where
          at_a :
              (((found i).0 == a) ≡ true) ⊎ (((found i).0 == a) ≡ false)
              → (if ((found i).0 == a) && true then raised (found i).0 else (s a).level i)
                ≡ bumped s a i
          at_a (inl e) = rw e (ap raised ((==_iff (found i).0 a).0 e))
          at_a (inr e) = rw e

  -- The loop over the levels above the new node.
  pub level-bump_levels :
      (n i : ℕ) (s : Nodes) (a j : ℕ)
      → (bump_levels n i found s a).level j
        ≡ (if leb i j && ltb j (i + n) then bumped s a j else (s a).level j)
  unfolding bump_levels
  level-bump_levels zero i s a j = ground arith
  level-bump_levels (suc n) i s a j =
      level-bump_levels n (i + 1) (bump_round i s) a j
      ∙ rw (level-bump_round s i a j) (ground arith)

-- The loop over the new levels of the header: it notes the header and the length.
pub level-raise_levels :
    (sl : SkipList) (n i : ℕ) (s : Nodes) (found : ℕ → ℕ × ℕ) (a j : ℕ)
    → ((raise_levels n i sl (s, found)).0 a).level j ≡ (
        if (sl.header == a) && (leb i j && ltb j (i + n))
        then record ((s a).level j) { span = sl.length }
        else (s a).level j)
unfolding raise_levels
level-raise_levels sl zero i s found a j = ground arith
level-raise_levels sl (suc n) i s found a j =
    level-raise_levels sl n (i + 1) (set_level s sl.header i l) (update found i (sl.header, 0)) a j
    ∙ rw (level-set_level s sl.header i l a j)
        (at_level (Bool-cases (sl.header == a)) (Bool-cases (i == j)))
  where
    l : Level
    l = record ((s sl.header).level i) { span = sl.length }

    at_level :
        ((sl.header == a) ≡ true) ⊎ ((sl.header == a) ≡ false)
        → ((i == j) ≡ true) ⊎ ((i == j) ≡ false)
        → (if (sl.header == a) && (leb (i + 1) j && ltb j (i + 1 + n))
            then record (if (sl.header == a) && (i == j) then l else (s a).level j) {
              span = sl.length;
            }
            else if (sl.header == a) && (i == j)
            then l
            else (s a).level j)
          ≡ (if (sl.header == a) && (leb i j && ltb j (i + suc n))
              then record ((s a).level j) { span = sl.length }
              else (s a).level j)
    at_level (inr e) k = rw e
    at_level (inl e) (inr e') = rw (e, e') (ground arith)
    at_level (inl e) (inl e') =
        let over : (leb (i + 1) j && ltb j (i + 1 + n)) ≡ false = ground arith in
        let inside : (leb i j && ltb j (i + suc n)) ≡ true = ground arith in
        rw (e, e', over, inside)
          (ap₂ (λ p k. record ((s p).level k) { span = sl.length }) ((==_iff sl.header a).0 e)
            ((==_iff i j).0 e'))

pub found-raise_levels :
    (sl : SkipList) (n i : ℕ) (s : Nodes) (found : ℕ → ℕ × ℕ) (j : ℕ)
    → (raise_levels n i sl (s, found)).1 j
      ≡ (if leb i j && ltb j (i + n) then (sl.header, 0) else found j)
unfolding raise_levels
found-raise_levels sl zero i s found j = ground arith
found-raise_levels sl (suc n) i s found j =
    found-raise_levels sl n (i + 1)
      (set_level s sl.header i (record ((s sl.header).level i) { span = sl.length }))
      (update found i (sl.header, 0)) j
    ∙ ground arith
