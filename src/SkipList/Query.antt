-- ===== src/SkipList/Query.antt =====
-- lualib-src/skiplist/skiplist.c: `slGetRank`, `slGetNodeByRank` and the ranges of scores.
pub mod Seek
pub mod Rank
pub mod Position
pub mod Reach
pub mod Range
use rillserver.Prelude.{
  ℕ, zero, suc, ◌+◌, Bool, true, false, ◌&&◌, ◌||◌, not, Option, none, some, List, ltb, leb, ◌==◌,
  if◌then◌else◌,
}
use rillserver.Prelude.Int.{is_neg}
use rillserver.SkipList.{Node, Nodes, SkipList, walk, search_path}
use rillserver.SkipList.Compare.{compare_obj, equals_obj, is_zero}

-- A search over the levels below `n` that ends at the first node that is `done`.
unfoldable pub seek : (ℕ → Node → Bool) → (ℕ → ℕ → Bool) → Nodes → ℕ → ℕ → ℕ → ℕ → Option (ℕ × ℕ)
seek go done s fuel zero x r = none
seek go done s fuel (suc i) x r =
    let here = walk go s i fuel x r in
    let lower = seek go done s fuel i here.0 here.1 in
    if done here.0 here.1 then some here else lower

-- the test of `slGetRank`: `compareslObj(...) <= 0` is `< 0` or `== 0`
unfoldable pub is_up_to : ℕ → List ℕ → ℕ → Node → Bool
is_up_to score obj r n =
    ltb n.score score
    || (n.score == score) && elim n.obj [
      | none ↦ false
      | some o ↦ is_neg (compare_obj o obj) || is_zero (compare_obj o obj)
    ]

-- `x->obj && equalslObj(x->obj, o)`
abbrev pub has_obj : Nodes → List ℕ → ℕ → Bool
has_obj s obj x = elim (s x).obj [ none ↦ false | some o ↦ equals_obj o obj ]

-- the rank at which a search ended early, and 0 for one that did not
abbrev pub rank_of : Option (ℕ × ℕ) → ℕ
rank_of none = 0
rank_of (some (x, r)) = r

-- `slGetRank`
unfoldable pub get_rank : SkipList → ℕ → List ℕ → ℕ
get_rank sl score obj = rank_of (
    seek (is_up_to score obj) (λ x r. has_obj sl.nodes obj x) sl.nodes sl.length sl.level sl.header
      0)

-- `slGetNodeByRank`
unfoldable pub get_node_by_rank : SkipList → ℕ → Option ℕ
get_node_by_rank sl rank =
    let found =
      seek (λ r n. leb r rank) (λ x r. r == rank) sl.nodes sl.length sl.level sl.header 0 in
    if (rank == 0) || ltb sl.length rank
    then none
    else elim found [ none ↦ none | some (x, r) ↦ some x ]

-- `slIsInRange`
unfoldable pub is_in_range : SkipList → ℕ → ℕ → Bool
is_in_range sl least most = if ltb most least then false else elim sl.tail [
  | none ↦ false
  | some t ↦
      if ltb (sl.nodes t).score least then false else elim ((sl.nodes sl.header).level 0).forward [
        | none ↦ false
        | some f ↦ if ltb most (sl.nodes f).score then false else true
      ]
]

-- `slFirstInRange`
unfoldable pub first_in_range : (ℕ → ℕ × ℕ) → SkipList → ℕ → ℕ → Option ℕ
first_in_range garbage sl least most =
    let found = search_path (λ r n. ltb n.score least) sl garbage in
    if is_in_range sl least most then ((sl.nodes (found 0).0).level 0).forward else none

-- `slLastInRange`
unfoldable pub last_in_range : (ℕ → ℕ × ℕ) → SkipList → ℕ → ℕ → Option ℕ
last_in_range garbage sl least most =
    let found = search_path (λ r n. leb n.score most) sl garbage in
    if is_in_range sl least most then some (found 0).0 else none
