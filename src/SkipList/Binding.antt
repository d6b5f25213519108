-- ===== src/SkipList/Binding.antt =====
-- lualib-src/skiplist/lua-skiplist.c: the ranges of ranks and of scores that Lua asks for. A result
-- is the list of the objects pushed; Lua's integers come as unsigned numbers of 64 bits.
pub mod Walks
pub mod Collect
pub mod Scores
pub mod RanksDown
pub mod Ranks
use rillserver.Prelude.{
  ℕ, zero, suc, ◌+◌, ◌-◌, ◌%◌, ◌^◌, Bool, true, false, Option, none, some, List, [], ◌∷◌, ltb, leb,
  if◌then◌else◌,
}
use rillserver.SkipList.{Nodes, SkipList}
use rillserver.SkipList.Query.{get_node_by_rank, first_in_range, last_in_range}
use rillserver.SkipList.Delete.{delete_by_rank}

-- `node = reverse ? node->backward : node->level[0].forward`
abbrev pub step : Bool → Nodes → ℕ → Option ℕ
step reverse s x = if reverse then (s x).backward else ((s x).level 0).forward

-- How often a loop below a count of type `int` runs, `m` being assigned to the count.
abbrev pub int_count : ℕ → ℕ
int_count m = if ltb (m % 2 ^ 32) (2 ^ 31) then m % 2 ^ 32 else 0

-- the loop of `_get_rank_range`, with `n` rounds to go
unfoldable pub collect_ranks : Bool → Nodes → ℕ → Option ℕ → List (Option (List ℕ))
collect_ranks reverse s zero at = []
collect_ranks reverse s (suc n) none = []
collect_ranks reverse s (suc n) (some x) = (s x).obj ∷ collect_ranks reverse s n (step reverse s x)

-- `_get_rank_range`
unfoldable pub get_rank_range : SkipList → ℕ → ℕ → List (Option (List ℕ))
get_rank_range sl r1 r2 =
    let node = get_node_by_rank sl r1 in
    if leb r1 r2
    then collect_ranks false sl.nodes (int_count (r2 - r1 + 1)) node
    else collect_ranks true sl.nodes (int_count (r1 - r2 + 1)) node

-- the loop of `_get_score_range`
unfoldable pub collect_scores : Bool → ℕ → Nodes → ℕ → Option ℕ → List (Option (List ℕ))
collect_scores reverse s2 s zero at = []
collect_scores reverse s2 s (suc fuel) none = []
collect_scores reverse s2 s (suc fuel) (some x) =
    let rest = collect_scores reverse s2 s fuel (step reverse s x) in
    if (if reverse then ltb (s x).score s2 else ltb s2 (s x).score) then [] else (s x).obj ∷ rest

-- `_get_score_range`
unfoldable pub get_score_range : (ℕ → ℕ × ℕ) → SkipList → ℕ → ℕ → List (Option (List ℕ))
get_score_range garbage sl s1 s2 =
    if leb s1 s2
    then collect_scores false s2 sl.nodes sl.length (first_in_range garbage sl s1 s2)
    else collect_scores true s2 sl.nodes sl.length (last_in_range garbage sl s2 s1)

-- `_delete_by_rank`: the two ranks come in any order.
unfoldable pub delete_ranks : (ℕ → ℕ × ℕ) → SkipList → ℕ → ℕ → SkipList × List (Option (List ℕ))
delete_ranks garbage sl start last =
    if ltb (last % 2 ^ 32) (start % 2 ^ 32)
    then delete_by_rank garbage sl (last % 2 ^ 32) (start % 2 ^ 32)
    else delete_by_rank garbage sl (start % 2 ^ 32) (last % 2 ^ 32)
