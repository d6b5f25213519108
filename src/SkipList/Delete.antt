-- ===== src/SkipList/Delete.antt =====
-- lualib-src/skiplist/skiplist.c: `slDeleteNode`, `slDelete` and `slDeleteByRank`. A node that is
-- freed stays in the store, where no link leads to it any more.
pub mod Unlink
pub mod Cut
pub mod Removal
pub mod Removed
pub mod Gone
pub mod DeleteLaw
pub mod Ranks
pub mod Run
use rillserver.Prelude.{
  ℕ, zero, suc, ◌+◌, ◌-◌, Bool, true, false, ◌&&◌, Option, none, some, List, [], ◌∷◌, leb, ltb,
  ◌==◌, if◌then◌else◌,
}
use rillserver.SkipList.{
  Level, Node, Nodes, SkipList, set_level, set_backward, search_path, is_before,
}
use rillserver.SkipList.Query.{has_obj}

abbrev pub is_node : Option ℕ → ℕ → Bool
is_node none x = false
is_node (some y) x = y == x

-- the level of `update[i]`, `mine` being that of the node which goes
abbrev pub cut_level : ℕ → Level → Level → Level
cut_level x old mine =
    if is_node old.forward x
    then record { forward = mine.forward; span = old.span + mine.span - 1 }
    else record old { span = old.span - 1 }

-- `for (i = 0; i < sl->level; i++)`, with `n` rounds to go
unfoldable pub unlink_levels : ℕ → ℕ → (ℕ → ℕ × ℕ) → ℕ → Nodes → Nodes
unlink_levels zero i found x s = s
unlink_levels (suc n) i found x s =
    let u = (found i).0 in
    unlink_levels n (i + 1) found x (set_level s u i (cut_level x ((s u).level i) ((s x).level i)))

-- `while (sl->level > 1 && sl->header->level[sl->level-1].forward == NULL) sl->level--;`
unfoldable pub shrink : (ℕ → Level) → ℕ → ℕ
shrink levels zero = zero
shrink levels (suc zero) = suc zero
shrink levels (suc (suc n)) =
    let lower = shrink levels (suc n) in
    elim (levels (suc n)).forward [ none ↦ lower | some y ↦ suc (suc n) ]

-- The end of `slDeleteNode`: the pointer backward of the next node, or the tail; level; length.
unfoldable pub finish_delete : SkipList → Nodes → ℕ → SkipList
finish_delete sl s x = elim ((s x).level 0).forward [
  | none ↦ record sl {
    tail = (s x).backward;
    nodes = s;
    level = shrink (s sl.header).level sl.level;
    length = sl.length - 1;
  }
  | some y ↦
      let s' = set_backward s y (s x).backward in
      record sl { nodes = s'; level = shrink (s' sl.header).level sl.level; length = sl.length - 1 }
]

-- `slDeleteNode`
unfoldable pub delete_node : SkipList → ℕ → (ℕ → ℕ × ℕ) → SkipList
delete_node sl x found = finish_delete sl (unlink_levels sl.level 0 found x sl.nodes) x

-- `slDelete`
unfoldable pub delete : (ℕ → ℕ × ℕ) → SkipList → ℕ → List ℕ → SkipList × Bool
delete garbage sl score obj =
    let found = search_path (is_before score obj) sl garbage in
    elim ((sl.nodes (found 0).0).level 0).forward [
      | none ↦ (sl, false)
      | some x ↦
          if (score == (sl.nodes x).score) && has_obj sl.nodes obj x
          then (delete_node sl x found, true)
          else (sl, false)
    ]

-- The `while` loop of `slDeleteByRank`: `removed` has what the callback got.
unfoldable pub delete_run :
    ℕ → (ℕ → ℕ × ℕ) → ℕ → ℕ → Option ℕ → SkipList → SkipList × List (Option (List ℕ))
delete_run zero found traversed last x sl = (sl, [])
delete_run (suc fuel) found traversed last none sl = (sl, [])
delete_run (suc fuel) found traversed last (some x) sl =
    let next = ((sl.nodes x).level 0).forward in
    let rest = delete_run fuel found (traversed + 1) last next (delete_node sl x found) in
    if leb traversed last then (rest.0, (sl.nodes x).obj ∷ rest.1) else (sl, [])

-- `slDeleteByRank`
unfoldable pub delete_by_rank : (ℕ → ℕ × ℕ) → SkipList → ℕ → ℕ → SkipList × List (Option (List ℕ))
delete_by_rank garbage sl start last =
    let found = search_path (λ r n. ltb r start) sl garbage in
    delete_run sl.length found ((found 0).1 + 1) last ((sl.nodes (found 0).0).level 0).forward sl
