-- ===== src/SkipList/Binding/Ranks.antt =====
-- `_get_rank_range` against the nodes counted from 1.
use rillserver.Prelude.{
  ℕ, zero, suc, ◌+◌, ◌-◌, ◌%◌, ◌^◌, ◌<◌, ◌≤◌, ◌≡◌, refl, ap, sym, subst, ◌∙◌, arith, true, false,
  List, [], ◌∷◌, ◌++◌, length, leb, ◌==◌, inl, inr, length-append, get_elem?, lt→ltb, leb→le,
  Bool-cases, if◌then◌else◌,
}
use rillserver.SkipList.{Nodes, SkipList}
use rillserver.SkipList.Inv.{IsSkipList}
use rillserver.SkipList.Query.Reach.{first}
use rillserver.SkipList.Query.Rank.{get_node_by_rank-get_elem, get_elem?-beyond}
use rillserver.SkipList.Delete.Ranks.{
  objs_of_ranks, Front, Front-of, objs_of_ranks-front, beyond_ranks,
}
use rillserver.SkipList.Binding.{collect_ranks, get_rank_range, int_count}
use rillserver.SkipList.Binding.RanksDown.{collect_none, collect_down}
use mathlib.Core.List.{reverse}
use rillserver.SkipList.Binding.Walks.{Backed-Backwards, Forwards, wired-Forwards, Forwards-right}

get_elem-here : (xs ys : List ℕ) → get_elem? (xs ++ ys) (length xs) ≡ first ys
get_elem-here [] [] = refl
get_elem-here [] (b ∷ ys) = refl
get_elem-here (b ∷ xs) ys = get_elem-here xs ys

get_elem-first : (n : ℕ) (xs : List ℕ) (f : Front n xs) → get_elem? xs n ≡ first f.behind
get_elem-first n xs f = elim f.full [
  | inl e ↦
      let long : length xs ≡ length f.before =
        ap length f.cut
        ∙ ap (λ l. length (f.before ++ l)) e
        ∙ (length-append f.before [] ∙ omega arith) in
      get_elem?-beyond xs n (omega (arith, long, f.short)) ∙ ap first (sym e)
  | inr e ↦
      ap (λ l. get_elem? l n) f.cut
      ∙ ap (get_elem? (f.before ++ f.behind)) (sym e)
      ∙ get_elem-here f.before f.behind
]

-- The walk from the node behind the first `r`.
collect_forward :
    (s : Nodes) (start last n r : ℕ) (ys : List ℕ)
    → Forwards s ys
    → start ≤ suc r
    → n + r ≡ last
    → collect_ranks false s n (first ys) ≡ objs_of_ranks s start last r ys
unfolding collect_ranks
collect_forward s start last n r [] f le e = collect_none false s n
collect_forward s start last zero r (b ∷ ys) f le e =
    sym (beyond_ranks start last s r (b ∷ ys) (omega (arith, e))).1
collect_forward s start last (suc n) r (b ∷ ys) f le e =
    let from : leb start (suc r) ≡ true = ground arith in
    let inside : leb (suc r) last ≡ true = ground arith in
    rw (from, inside, f.0)
      (ap (λ l. (s b).obj ∷ l)
        (collect_forward s start last n (suc r) ys f.1 (omega arith) (omega (arith, e))))

int_count-small : (m : ℕ) → m < 2 ^ 31 → int_count m ≡ m
int_count-small m lt = let whole : m % 2 ^ 32 ≡ m = omega arith in rw (whole, lt→ltb m (2 ^ 31) lt)

-- The ranks from `r1` up to `r2`.
range_up :
    (height : ℕ → ℕ) (sl : SkipList) (xs : List ℕ) (r1 r2 : ℕ)
    → IsSkipList height sl xs
    → 1 ≤ r1
    → r1 ≤ r2
    → collect_ranks false sl.nodes (r2 - r1 + 1) (get_elem? xs (r1 - 1))
      ≡ objs_of_ranks sl.nodes r1 r2 0 xs
range_up height sl xs r1 r2 v one up =
    let f = Front-of (r1 - 1) xs in
    let forwards =
      subst (Forwards sl.nodes) f.cut
        (wired-Forwards height sl.header sl.level sl.nodes xs v.towers v.wired) in
    let gone =
      ap (objs_of_ranks sl.nodes r1 r2 0) f.cut
      ∙ objs_of_ranks-front r1 r2 sl.nodes 0 f.before f.behind (omega (arith, f.short)) in
    rw (get_elem-first (r1 - 1) xs f, gone)
      (elim f.full [
        | inl e ↦
            ap (λ l. collect_ranks false sl.nodes (r2 - r1 + 1) (first l)) e
            ∙ collect_none false sl.nodes (r2 - r1 + 1)
            ∙ sym (ap (objs_of_ranks sl.nodes r1 r2 (0 + length f.before)) e)
        | inr e ↦
            collect_forward sl.nodes r1 r2 (r2 - r1 + 1) (0 + length f.before) f.behind
              (Forwards-right sl.nodes f.before f.behind forwards) (omega (arith, e))
              (omega (arith, e))
      ])

-- `_get_rank_range` on a sound list, for two ranks from 1 up with fewer than 2^31 ranks from one to
-- the other: where the first is not above the second, the objects of the nodes with these ranks, both
-- ends included, in order. Where it is, the same objects in reverse order, if the list has a node of
-- the first rank, and nothing if it has not.
pub get_rank_range-objs :
    (height : ℕ → ℕ) (sl : SkipList) (xs : List ℕ) (r1 r2 : ℕ)
    → IsSkipList height sl xs
    → 1 ≤ r1
    → 1 ≤ r2
    → r2 - r1 + 1 < 2 ^ 31
    → r1 - r2 + 1 < 2 ^ 31
    → get_rank_range sl r1 r2 ≡ (
        if leb r1 r2
        then objs_of_ranks sl.nodes r1 r2 0 xs
        else if leb r1 (length xs)
        then reverse (objs_of_ranks sl.nodes r2 r1 0 xs)
        else [])
unfolding get_rank_range
get_rank_range-objs height sl xs r1 r2 v one one' few few' =
    let some_rank : (r1 == 0) ≡ false = ground arith in
    let node = get_node_by_rank-get_elem height sl xs r1 v in
    elim (Bool-cases (leb r1 r2)) [
      | inl up ↦
          rw (up, node, some_rank, int_count-small (r2 - r1 + 1) few)
            (range_up height sl xs r1 r2 v one (leb→le r1 r2 up))
      | inr down ↦
          rw (down, node, some_rank, int_count-small (r1 - r2 + 1) few')
            (elim (Bool-cases (leb r1 (length xs))) [
              | inl there ↦ rw there (
                  collect_down sl.nodes xs r2 r1 (Backed-Backwards sl.nodes xs [] v.backed tt) one'
                    (ground arith) (leb→le r1 (length xs) there))
              | inr beyond ↦
                  let out : length xs ≤ r1 - 1 = ground arith in
                  rw (beyond, get_elem?-beyond xs (r1 - 1) out)
                    (collect_none true sl.nodes (r1 - r2 + 1))
            ])
    ]
