-- ===== src/SkipList/Binding/Scores.antt =====
-- `_get_score_range` against a filter of the nodes by their scores.
use rillserver.Prelude.{
  ℕ, zero, suc, ◌+◌, ◌≡◌, refl, ap, sym, subst, ◌∙◌, arith, true, false, none, some, List, [], ◌∷◌,
  ◌++◌, length, ltb, leb, if◌then◌else◌, Bool-cases, inl, inr, length-append,
}
use rillserver.SkipList.{Nodes, SkipList}
use rillserver.SkipList.Order.{elements, IsSorted}
use rillserver.SkipList.Inv.{IsSkipList, end_of}
use rillserver.SkipList.Query.{first_in_range, last_in_range}
use rillserver.SkipList.Query.Reach.{
  first, has, first_not, last_that, in_reach, AllScores, Cut, first_not-cut, last_that-cut, Cut-of,
}
use rillserver.SkipList.Query.Range.{range-ends, less_down, up_to_down}
use rillserver.SkipList.Binding.{collect_scores, get_score_range}
use rillserver.SkipList.Binding.Walks.{
  Forwards, Backwards, reversed, wired-Forwards, Forwards-right, Backed-Backwards, end_of-reversed,
  length-reversed, reversed-append, AllScores-reversed, reversed-IsDescending, IsSorted-front,
  IsSorted-behind, Backwards-drop,
}
use rillserver.SkipList.Binding.Collect.{
  objs_of_scores, none_low, none_high, all_high, all_low, collect_forward, collect_backward,
}

-- Out of reach nothing is in the range.
unreached :
    (s : Nodes) (least most : ℕ) (xs : List ℕ) (c : Cut (λ n. ltb n least) s xs)
    (d : Cut (λ n. leb n most) s xs)
    → leb least most ≡ true
    → in_reach s least most xs ≡ false
    → (objs_of_scores s least most xs ≡ []) × (objs_of_scores s least most (reversed xs []) ≡ [])
unreached s least most xs c d le out = at_ends c.behind d.before refl refl
  where
    at_ends :
        (ys zs : List ℕ)
        → c.behind ≡ ys
        → d.before ≡ zs
        → (objs_of_scores s least most xs ≡ [])
          × (objs_of_scores s least most (reversed xs []) ≡ [])
    at_ends [] zs e e' =
        let low : AllScores true (λ n. ltb n least) s c.before = c.pass in
        let cut : xs ≡ c.before ++ [] = c.cut ∙ ap (λ l. c.before ++ l) e in
        (
          ap (objs_of_scores s least most) cut ∙ none_low s least most c.before [] low,
          ap (λ l. objs_of_scores s least most (reversed l [])) cut
              ∙ ap (objs_of_scores s least most) (reversed-append c.before [] [])
              ∙ all_low s least most (reversed c.before [])
                  (AllScores-reversed true (λ n. ltb n least) s c.before [] low tt),
        )
    at_ends (y ∷ ys) [] e e' =
        let cut : xs ≡ d.behind = d.cut ∙ ap (λ l. l ++ d.behind) e' in
        (
          ap (objs_of_scores s least most) cut ∙ all_high s least most d.behind d.fail,
          ap (λ l. objs_of_scores s least most (reversed l [])) cut
              ∙ none_high s least most d.behind [] d.fail,
        )
    at_ends (y ∷ ys) (z ∷ zs) e e' =
        let lo : has (first_not (λ n. ltb n least) s xs) ≡ true =
          ap (λ l. has (first_not (λ n. ltb n least) s l)) c.cut
          ∙ ap has (first_not-cut (λ n. ltb n least) s c.before c.behind c.pass c.fail)
          ∙ ap (λ l. has (first l)) e in
        let hi : has (last_that (λ n. leb n most) s xs) ≡ true =
          ap (λ l. has (last_that (λ n. leb n most) s l)) d.cut
          ∙ ap has (last_that-cut (λ n. leb n most) s d.before d.behind d.pass d.fail)
          ∙ ap (λ l. has (end_of none l)) e'
          ∙ some_end z zs in
        let no : true ≡ false = rw (le, lo, hi) at out in absurd (cc)
      where
        some_end : (b : ℕ) (bs : List ℕ) → has (end_of (some b) bs) ≡ true
        some_end b [] = refl
        some_end b (g ∷ bs) = some_end g bs

module _ (height : ℕ → ℕ) (sl : SkipList) (xs : List ℕ) (v : IsSkipList height sl xs)
    (garbage : ℕ → ℕ × ℕ) (least most : ℕ) (ordered : leb least most ≡ true) where
  low-Cut : Cut (λ n. ltb n least) sl.nodes xs
  low-Cut = Cut-of (λ n. ltb n least) sl.nodes (less_down least) xs v.sorted

  high-Cut : Cut (λ n. leb n most) sl.nodes xs
  high-Cut = Cut-of (λ n. leb n most) sl.nodes (up_to_down most) xs v.sorted

  nothing_up : (fuel : ℕ) → collect_scores false most sl.nodes fuel none ≡ []
  unfolding collect_scores
  nothing_up zero = refl
  nothing_up (suc fuel) = refl

  nothing_down : (fuel : ℕ) → collect_scores true least sl.nodes fuel none ≡ []
  unfolding collect_scores
  nothing_down zero = refl
  nothing_down (suc fuel) = refl

  range_up :
      collect_scores false most sl.nodes sl.length (first_in_range garbage sl least most)
      ≡ objs_of_scores sl.nodes least most xs
  range_up =
      rw (range-ends height sl xs garbage least most v).0
        (elim (Bool-cases (in_reach sl.nodes least most xs)) [
          | inl reached ↦
              let c = low-Cut in
              let start : first_not (λ n. ltb n least) sl.nodes xs ≡ first c.behind =
                ap (first_not (λ n. ltb n least) sl.nodes) c.cut
                ∙ first_not-cut (λ n. ltb n least) sl.nodes c.before c.behind c.pass c.fail in
              let forwards =
                subst (Forwards sl.nodes) c.cut
                  (wired-Forwards height sl.header sl.level sl.nodes xs v.towers v.wired) in
              let long : length xs ≡ length c.before + length c.behind =
                ap length c.cut ∙ length-append c.before c.behind in
              rw (reached, start)
                (collect_forward sl.nodes least most sl.length c.behind
                    (omega (arith, v.count, long))
                    (Forwards-right sl.nodes c.before c.behind forwards) c.fail
                    (IsSorted-behind sl.nodes c.before c.behind
                      (subst (λ l. IsSorted (elements sl.nodes l)) c.cut v.sorted))
                  ∙ sym (
                      ap (objs_of_scores sl.nodes least most) c.cut
                      ∙ none_low sl.nodes least most c.before c.behind c.pass))
          | inr out ↦ rw out (
              nothing_up sl.length
              ∙ sym (unreached sl.nodes least most xs low-Cut high-Cut ordered out).0)
        ])

  range_down :
      collect_scores true least sl.nodes sl.length (last_in_range garbage sl least most)
      ≡ objs_of_scores sl.nodes least most (reversed xs [])
  range_down =
      rw (range-ends height sl xs garbage least most v).1
        (elim (Bool-cases (in_reach sl.nodes least most xs)) [
          | inl reached ↦
              let d = high-Cut in
              let start : last_that (λ n. leb n most) sl.nodes xs ≡ first (reversed d.before []) =
                ap (last_that (λ n. leb n most) sl.nodes) d.cut
                ∙ last_that-cut (λ n. leb n most) sl.nodes d.before d.behind d.pass d.fail
                ∙ end_of-reversed d.before [] in
              let long : length xs ≡ length d.before + length d.behind =
                ap length d.cut ∙ length-append d.before d.behind in
              rw (reached, start)
                (collect_backward sl.nodes least most sl.length (reversed d.before [])
                    (omega (arith, v.count, long, length-reversed d.before []))
                    (back_front d.before d.behind (
                      subst (Backwards sl.nodes)
                        (ap (λ l. reversed l []) d.cut ∙ reversed-append d.before d.behind [])
                        (Backed-Backwards sl.nodes xs [] v.backed tt)))
                    (AllScores-reversed true (λ n. leb n most) sl.nodes d.before [] d.pass tt)
                    (reversed-IsDescending sl.nodes d.before (
                      IsSorted-front sl.nodes d.before d.behind
                        (subst (λ l. IsSorted (elements sl.nodes l)) d.cut v.sorted)))
                  ∙ sym (
                      ap (λ l. objs_of_scores sl.nodes least most (reversed l [])) d.cut
                      ∙ ap (objs_of_scores sl.nodes least most)
                          (reversed-append d.before d.behind [])
                      ∙ none_high sl.nodes least most d.behind (reversed d.before []) d.fail))
          | inr out ↦ rw out (
              nothing_down sl.length
              ∙ sym (unreached sl.nodes least most xs low-Cut high-Cut ordered out).1)
        ])
    where
      back_front :
          (ys zs : List ℕ)
          → Backwards sl.nodes (reversed zs (reversed ys []))
          → Backwards sl.nodes (reversed ys [])
      back_front ys zs w = Backwards-drop sl.nodes zs (reversed ys []) w

-- `_get_score_range` on a sound list gives the objects of the nodes whose scores are between the two,
-- both included, in order where the first score is not above the second, and in reverse order where
-- it is.
pub get_score_range-objs :
    (height : ℕ → ℕ) (sl : SkipList) (xs : List ℕ) (garbage : ℕ → ℕ × ℕ) (s1 s2 : ℕ)
    → IsSkipList height sl xs
    → get_score_range garbage sl s1 s2 ≡ (
        if leb s1 s2
        then objs_of_scores sl.nodes s1 s2 xs
        else objs_of_scores sl.nodes s2 s1 (reversed xs []))
unfolding get_score_range
get_score_range-objs height sl xs garbage s1 s2 v = elim (Bool-cases (leb s1 s2)) [
  | inl up ↦ rw up (range_up height sl xs v garbage s1 s2 up)
  | inr down ↦ rw down (range_down height sl xs v garbage s2 s1 (ground arith))
]
