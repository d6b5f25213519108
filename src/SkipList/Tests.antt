-- ===== src/SkipList/Tests.antt =====
-- The skip list at concrete inputs.
use rillserver.Prelude.{
  ℕ, zero, suc, ◌-◌, ◌<◌, ◌≡◌, ◌≢◌, refl, ap, arith, Bool, false, none, some, List, [], ◌∷◌, ◌++◌,
  length, ltb, leb, ◌==◌, if◌then◌else◌, get_elem?,
}
use rillserver.SkipList.{Level, Node, Nodes, SkipList, insert, walk, descend, search_path}
use rillserver.SkipList.Inv.{IsSkipList}
use rillserver.SkipList.InsertLaw.{Inserts, insert-Inserts}
use rillserver.SkipList.Query.{
  get_rank, get_node_by_rank, is_in_range, first_in_range, last_in_range,
}
use rillserver.SkipList.Query.Rank.{get_node_by_rank-get_elem}
use rillserver.SkipList.Query.Position.{get_rank-position}
use rillserver.SkipList.Query.Reach.{in_reach, first_not, last_that}
use rillserver.SkipList.Query.Range.{range-ends}
use rillserver.SkipList.Delete.{delete, delete_by_rank}
use rillserver.SkipList.Delete.DeleteLaw.{Deletes, delete-Deletes}
use rillserver.SkipList.Delete.Ranks.{without_ranks, objs_of_ranks}
use rillserver.SkipList.Binding.{get_rank_range, get_score_range}
use mathlib.Core.List.{reverse}
use rillserver.SkipList.Binding.Walks.{reversed}
use rillserver.SkipList.Binding.Collect.{objs_of_scores}
use rillserver.SkipList.Binding.Scores.{get_score_range-objs}
use rillserver.SkipList.Binding.Ranks.{get_rank_range-objs}
use rillserver.SkipList.Delete.Run.{Keeps, delete_by_rank-Keeps}

abbrev end_level : Level
end_level = record { forward = none; span = 0 }

abbrev garbage : ℕ → ℕ × ℕ
garbage k = (0, 0)

abbrev memory : Nodes
memory a = record { obj = none; score = 0; backward = none; level = λ j. end_level }

-- Two nodes of one level: score 7 with object 97, and score 9 with object 98.
abbrev two_nodes : Nodes
two_nodes zero = record {
  obj = none;
  score = 0;
  backward = none;
  level = λ j. if j == 0 then record { forward = some 1; span = 1 } else end_level;
}
two_nodes (suc zero) = record {
  obj = some (97 ∷ []);
  score = 7;
  backward = none;
  level = λ j. if j == 0 then record { forward = some 2; span = 1 } else end_level;
}
two_nodes (suc (suc b)) = record {
  obj = some (98 ∷ []);
  score = 9;
  backward = some 1;
  level = λ j. end_level;
}

abbrev two_items : SkipList
two_items = record { header = 0; tail = some 2; length = 2; level = 1; nodes = two_nodes }

abbrev one_level : ℕ → ℕ
one_level b = 1

lowest_only : (P : ℕ → Type 0) → P 0 → (i : ℕ) → i < 1 → P i
lowest_only P p zero lt = p
lowest_only P p (suc i) lt = absurd (omega arith)

two_items-IsSkipList : IsSkipList one_level two_items (1 ∷ 2 ∷ [])
two_items-IsSkipList = record {
  wired_header = lowest_only _ refl;
  wired = (lowest_only _ refl, (lowest_only _ refl, tt));
  top = refl;
  unused = λ j le lt. let above : (j == 0) ≡ false = ground arith in rw above;
  level_up = omega arith;
  level_in = omega arith;
  towers = ((omega arith, omega arith), ((omega arith, omega arith), tt));
  distinct = (
    ((λ e. absurd (omega arith)), ((λ e. absurd (omega arith)), tt)),
    (((λ e. absurd (omega arith)), tt), (tt, tt)),
  );
  count = refl;
  no_obj = refl;
  valued = ((97 ∷ [], refl), ((98 ∷ [], refl), tt));
  sorted = ((refl, tt), (tt, tt));
  backed = (refl, (refl, tt));
  ends = refl;
}

byte_ne : (m n : ℕ) → m ≢ n → some (m ∷ []) ≢ some (n ∷ [])
byte_ne m n ne e = ne (cc)

insert-Inserts_example :
    Inserts two_items
      (insert garbage (0 ∷ 40000 ∷ []) 3 two_items 8 (99 ∷ []))
      (1 ∷ 2 ∷ [])
      (record { score = 8; obj = 99 ∷ [] })
insert-Inserts_example =
    insert-Inserts one_level two_items (1 ∷ 2 ∷ []) garbage (0 ∷ 40000 ∷ []) 3 8 (99 ∷ [])
      two_items-IsSkipList
      (
        (λ e. absurd (omega arith)),
        ((λ e. absurd (omega arith)), ((λ e. absurd (omega arith)), tt)),
      )
      ((λ e. omega (arith, ap (λ f. f.score) e)), ((λ e. omega (arith, ap (λ f. f.score) e)), tt))

abbrev short_obj : List ℕ
short_obj = 97 ∷ []

abbrev long_obj : List ℕ
long_obj = 97 ∷ 98 ∷ []

abbrev first_node : List ℕ
first_node = 1 ∷ []

abbrev below_eight : ℕ → Node → Bool
below_eight r n = ltb n.score 8

get_node_by_rank-get_elem_example :
    get_node_by_rank two_items 2 ≡ (if 2 == 0 then none else get_elem? (1 ∷ 2 ∷ []) (2 - 1))
get_node_by_rank-get_elem_example =
    get_node_by_rank-get_elem one_level two_items (1 ∷ 2 ∷ []) 2 two_items-IsSkipList

get_rank-position_example :
    get_rank two_items (two_items.nodes 2).score (98 ∷ []) ≡ suc (length first_node)
get_rank-position_example =
    get_rank-position one_level two_items first_node [] 2 (98 ∷ []) two_items-IsSkipList refl
      ((λ e. byte_ne 97 98 (omega arith) e), tt)

range-ends_example :
    (first_in_range garbage two_items 8 20 ≡ (
      if in_reach two_nodes 8 20 (1 ∷ 2 ∷ [])
      then first_not (λ n. ltb n 8) two_nodes (1 ∷ 2 ∷ [])
      else none))
    × (last_in_range garbage two_items 8 20 ≡ (
        if in_reach two_nodes 8 20 (1 ∷ 2 ∷ [])
        then last_that (λ n. leb n 20) two_nodes (1 ∷ 2 ∷ [])
        else none))
range-ends_example = range-ends one_level two_items (1 ∷ 2 ∷ []) garbage 8 20 two_items-IsSkipList

delete-Deletes_example :
    Deletes two_items
      (delete garbage two_items (two_items.nodes 2).score (98 ∷ []))
      ((1 ∷ []) ++ [])
delete-Deletes_example =
    delete-Deletes one_level two_items (1 ∷ []) 2 [] garbage (98 ∷ []) two_items-IsSkipList refl

delete_by_rank-Keeps_example :
    Keeps two_items
      (without_ranks 2 5 0 (1 ∷ 2 ∷ []))
      (objs_of_ranks two_nodes 2 5 0 (1 ∷ 2 ∷ []))
      (delete_by_rank garbage two_items 2 5)
delete_by_rank-Keeps_example =
    delete_by_rank-Keeps one_level two_items (1 ∷ 2 ∷ []) garbage 2 5 two_items-IsSkipList

-- A range between two scores: its first node is above it, and its last one below it.
range_between :
    (first_in_range garbage two_items 8 8 ≡ some 2) × (last_in_range garbage two_items 8 8 ≡ some 1)
unfolding first_in_range last_in_range is_in_range search_path descend walk
range_between = (refl, refl)

get_score_range-objs_example : get_score_range garbage two_items 9 8 ≡ (
    if leb 9 8
    then objs_of_scores two_nodes 9 8 (1 ∷ 2 ∷ [])
    else objs_of_scores two_nodes 8 9 (reversed (1 ∷ 2 ∷ []) []))
get_score_range-objs_example =
    get_score_range-objs one_level two_items (1 ∷ 2 ∷ []) garbage 9 8 two_items-IsSkipList

get_rank_range-objs_example : get_rank_range two_items 2 1 ≡ (
    if leb 2 1
    then objs_of_ranks two_nodes 2 1 0 (1 ∷ 2 ∷ [])
    else if leb 2 (length {A = ℕ} (1 ∷ 2 ∷ []))
    then reverse (objs_of_ranks two_nodes 1 2 0 (1 ∷ 2 ∷ []))
    else [])
get_rank_range-objs_example =
    get_rank_range-objs one_level two_items (1 ∷ 2 ∷ []) 2 1 two_items-IsSkipList (omega arith)
      (omega arith) (omega arith) (omega arith)
