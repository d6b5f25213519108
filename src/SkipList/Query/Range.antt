-- ===== src/SkipList/Query/Range.antt =====
-- `slIsInRange`, `slFirstInRange` and `slLastInRange`: the ends of a range of scores.
use rillserver.Prelude.{
  ℕ, suc, ◌≤◌, ◌≡◌, refl, ap, sym, subst, ◌∙◌, arith, Bool, true, false, ◌&&◌, Option, none, some,
  List, [], ◌∷◌, ◌++◌, if◌then◌else◌, ltb, leb, ◌==◌, Bool-cases, inl, inr, length-append,
}
use rillserver.SkipList.{SkipList, search_path}
use rillserver.SkipList.Wired.{last_at, onto}
use rillserver.SkipList.Search.{Holds, HoldsBack}
use rillserver.SkipList.Path.{search_path-last_at}
use rillserver.SkipList.Join.{last_level}
use rillserver.SkipList.Inv.{IsSkipList, end_of}
use rillserver.SkipList.Zip
use rillserver.SkipList.Query.{is_in_range, first_in_range, last_in_range}
use rillserver.SkipList.Query.Reach.{
  first, has, first_not, last_that, in_reach, AllScores, tail_test, head_test, Cut, first_not-cut,
  last_that-cut, tail_reach-Cut, head_reach-Cut, Cut-of, forward-first,
}

pub less_down : (k m n : ℕ) → m ≤ n → ltb n k ≡ true → ltb m k ≡ true
less_down k m n le h = ground arith

pub up_to_down : (k m n : ℕ) → m ≤ n → leb n k ≡ true → leb m k ≡ true
up_to_down k m n le h = ground arith

picked : (u h b : ℕ) → (if u == h then none else some u) ≡ some b → u ≡ b
picked u h b e = elim (Bool-cases (u == h)) [
  | inl same ↦ let no : none ≡ some b = rw same at e in absurd (cc)
  | inr other ↦ let yes : some u ≡ some b = rw other at e in cc
]

-- A node that is found wherever there is one.
reached :
    (a b : Bool) (o : Option ℕ) (u : ℕ)
    → ((c : ℕ) → o ≡ some c → u ≡ c)
    → (if a && (b && has o) then some u else none) ≡ (if a && (b && has o) then o else none)
reached a b none u is_u = let no : (a && (b && false)) ≡ false = ground arith in rw no
reached a b (some c) u is_u =
    ap (λ (k : ℕ). if a && (b && true) then some k else none) (is_u c refl)

module _ (height : ℕ → ℕ) (sl : SkipList) (xs : List ℕ) (v : IsSkipList height sl xs) where
  header_first : ((sl.nodes sl.header).level 0).forward ≡ first xs
  header_first =
      ap (λ l. l.forward) (v.wired_header 0 (omega (arith, v.top, v.level_up)))
      ∙ forward-first height sl.header sl.level xs v.towers

  -- `slIsInRange`: some score reaches up to the range and some down to it.
  is_in_range-in_reach :
      (least most : ℕ) → is_in_range sl least most ≡ in_reach sl.nodes least most xs
  unfolding is_in_range
  is_in_range-in_reach least most =
      let c = Cut-of (λ n. ltb n least) sl.nodes (less_down least) xs v.sorted in
      let d = Cut-of (λ n. leb n most) sl.nodes (up_to_down most) xs v.sorted in
      rw v.ends (
        at_ends (end_of none xs) ((sl.nodes sl.header).level 0).forward
          (tail_reach-Cut (λ n. ltb n least) sl.nodes xs c)
          (ap (head_test (λ n. leb n most) sl.nodes) header_first
            ∙ head_reach-Cut (λ n. leb n most) sl.nodes xs d))
    where
      at_ends :
          (t f : Option ℕ)
          → tail_test (λ n. ltb n least) sl.nodes t ≡ has (first_not (λ n. ltb n least) sl.nodes xs)
          → head_test (λ n. leb n most) sl.nodes f ≡ has (last_that (λ n. leb n most) sl.nodes xs)
          → (if ltb most least then false else elim t as (λ o. Bool) [
            | none ↦ false
            | some t ↦ if ltb (sl.nodes t).score least then false else elim f as (λ o. Bool) [
              | none ↦ false
              | some f ↦ if ltb most (sl.nodes f).score then false else true
            ]
          ])
            ≡ in_reach sl.nodes least most xs
      at_ends none f low high = rw (sym low) (ground arith)
      at_ends (some t) none low high = rw (sym high) (ground arith)
      at_ends (some t) (some l) low high = rw (sym low, sym high) (ground arith)

  -- Where the search of a range ends.
  module _ (p : ℕ → Bool) (c : Cut p sl.nodes xs) (garbage : ℕ → ℕ × ℕ) where
    v' : IsSkipList height sl (c.before ++ c.behind)
    v' = subst (IsSkipList height sl) c.cut v

    passed :
        (ys rs : List ℕ)
        → AllScores true p sl.nodes ys
        → HoldsBack (λ r n. p n.score) sl.nodes rs
        → HoldsBack (λ r n. p n.score) sl.nodes (onto height sl.header ys rs)
    passed [] rs t h = h
    passed (b ∷ ys) rs t h = passed ys (b ∷ rs) t.1 (t.0, h)

    failed :
        (r : ℕ) (ys : List ℕ)
        → AllScores false p sl.nodes ys
        → Holds false (λ r n. p n.score) sl.nodes r ys
    failed r [] t = tt
    failed r (b ∷ ys) t = (t.0, failed (suc r) ys t.1)

    end_found :
        search_path (λ r n. p n.score) sl garbage 0
        ≡ last_at height sl.header 0 (onto height sl.header c.before [])
    end_found =
        let (w, w') =
          Zip.zip-wired height sl.header sl.nodes c.before [] c.behind v'.wired_header v'.wired in
        search_path-last_at height (λ r n. p n.score) sl garbage (onto height sl.header c.before [])
          c.behind w w' (passed c.before [] c.pass tt) (failed _ c.behind c.fail)
          (omega (
            arith,
            Zip.length_onto height sl.header c.before [],
            v'.count,
            length-append c.before c.behind,
          ))
          (omega (arith, v.top)) v.level_up 0 (omega (arith, v.level_up))

    next_found :
        ((sl.nodes (search_path (λ r n. p n.score) sl garbage 0).0).level 0).forward
        ≡ first c.behind
    next_found =
        let (w, w') =
          Zip.zip-wired height sl.header sl.nodes c.before [] c.behind v'.wired_header v'.wired in
        let towers =
          Zip.AllTowers-onto height sl.header sl.level c.before [] c.behind tt v'.towers in
        ap (λ (q : ℕ × ℕ). ((sl.nodes q.0).level 0).forward) end_found
        ∙ ap (λ l. l.forward)
            (last_level height sl.header sl.nodes 0 (onto height sl.header c.before []) c.behind
              (omega (arith, v.top, v.level_up)) w).1
        ∙ forward-first height sl.header sl.level c.behind towers.1

    last_found :
        (b : ℕ)
        → end_of none c.before ≡ some b
        → (search_path (λ r n. p n.score) sl garbage 0).0 ≡ b
    last_found b e =
        let (out, out') =
          Zip.NotIn-onto height sl.header sl.header c.before [] c.behind tt v'.distinct.0 in
        let (towers, towers') =
          Zip.AllTowers-onto height sl.header sl.level c.before [] c.behind tt v'.towers in
        ap (λ (q : ℕ × ℕ). q.0) end_found
        ∙ picked _ sl.header b (
            (Zip.last_at-lowest height sl.header sl.level (onto height sl.header c.before []) towers
              out).1
            ∙ sym (Zip.end_of-onto height sl.header c.before [])
            ∙ e)

-- `slFirstInRange` and `slLastInRange` on a sound list, where the range is not reversed, some score
-- is not below it and some score is not above it: the first node whose score is not below the range,
-- and the last node whose score is not above it. Otherwise none.
pub range-ends :
    (height : ℕ → ℕ) (sl : SkipList) (xs : List ℕ) (garbage : ℕ → ℕ × ℕ) (least most : ℕ)
    → IsSkipList height sl xs
    → (first_in_range garbage sl least most ≡ (
        if in_reach sl.nodes least most xs then first_not (λ n. ltb n least) sl.nodes xs else none))
      × (last_in_range garbage sl least most ≡ (
          if in_reach sl.nodes least most xs
          then last_that (λ n. leb n most) sl.nodes xs
          else none))
unfolding first_in_range last_in_range
range-ends height sl xs garbage least most v =
    let c = Cut-of (λ n. ltb n least) sl.nodes (less_down least) xs v.sorted in
    let d = Cut-of (λ n. leb n most) sl.nodes (up_to_down most) xs v.sorted in
    let lo : first_not (λ n. ltb n least) sl.nodes xs ≡ first c.behind =
      ap (first_not (λ n. ltb n least) sl.nodes) c.cut
      ∙ first_not-cut (λ n. ltb n least) sl.nodes c.before c.behind c.pass c.fail in
    let hi : last_that (λ n. leb n most) sl.nodes xs ≡ end_of none d.before =
      ap (last_that (λ n. leb n most) sl.nodes) d.cut
      ∙ last_that-cut (λ n. leb n most) sl.nodes d.before d.behind d.pass d.fail in
    (
      rw (is_in_range-in_reach height sl xs v least most) (
          ap (λ o. if in_reach sl.nodes least most xs then o else none)
            (next_found height sl xs v (λ n. ltb n least) c garbage ∙ sym lo)),
      rw (is_in_range-in_reach height sl xs v least most) (
          reached (leb least most) (has (first_not (λ n. ltb n least) sl.nodes xs))
            (last_that (λ n. leb n most) sl.nodes xs) _
            (λ b e. last_found height sl xs v (λ n. leb n most) d garbage b (sym hi ∙ e))),
    )
