-- ===== src/SkipList.antt =====
-- lualib-src/skiplist/skiplist.c: the skip list behind the rankings. A `skiplistNode *` is an
-- address in the store `nodes`; the address that `malloc` returns and what the memory there held are
-- arguments. A `double` is its place in the order of the doubles other than NaN: the code only
-- compares scores. Ranks and spans do not wrap: a list has fewer than 2^32 elements.
pub mod Compare
pub mod Wired
pub mod Search
pub mod Path
pub mod Levels
pub mod Splice
pub mod Join
pub mod Order
pub mod Inv
pub mod Fields
pub mod Raise
pub mod Zip
pub mod Place
pub mod Placed
pub mod Backward
pub mod Insert
pub mod Inserted
pub mod Growth
pub mod InsertLaw
pub mod Query
pub mod Delete
pub mod Binding
mod Tests
use rillserver.Prelude.{
  ℕ, zero, suc, ◌+◌, ◌-◌, ◌*◌, ◌%◌, ◌^◌, Bool, true, false, ◌&&◌, ◌||◌, not, Option, none, some,
  List, [], ◌∷◌, ltb, leb, ◌==◌, if◌then◌else◌, min,
}
use rillserver.Prelude.Int.{ℤ, pos, negsuc, is_neg}
use rillserver.Prelude.Ring.{update}
use rillserver.SkipList.Compare.{compare_obj, equals_obj}

abbrev pub skiplist_maxlevel : ℕ
skiplist_maxlevel = 32

-- `struct skiplistLevel`
pub record Level : Type 0 where
  pub forward : Option ℕ
  pub span : ℕ

-- `obj` is the bytes of the object, or none for the NULL of the header.
pub record Node : Type 0 where
  pub obj : Option (List ℕ)
  pub score : ℕ
  pub backward : Option ℕ
  pub level : ℕ → Level

pub record SkipList : Type 0 where
  pub header : ℕ
  pub tail : Option ℕ
  pub length : ℕ
  pub level : ℕ
  pub nodes : ℕ → Node

abbrev pub Nodes : Type 0
Nodes = ℕ → Node

-- `p->level[i] = l`
abbrev pub set_level : Nodes → ℕ → ℕ → Level → Nodes
set_level s p i l = update s p (record (s p) { level = update (s p).level i l })

abbrev pub set_backward : Nodes → ℕ → Option ℕ → Nodes
set_backward s p b = update s p (record (s p) { backward = b })

-- `slCreateNode`; `memory` is what `malloc` found.
abbrev pub create_node : Node → ℕ → List ℕ → Node
create_node memory score obj = record memory { score = score; obj = some obj }

-- `slCreate`, with the header at `a`
unfoldable pub create : Nodes → ℕ → SkipList
create memory a = record {
  header = a;
  tail = none;
  length = 0;
  level = 1;
  nodes = update memory a (record {
    obj = none;
    score = 0;
    backward = none;
    level = λ j.
        if ltb j skiplist_maxlevel then record { forward = none; span = 0 } else (memory a).level j;
  });
}

-- `slRandomLevel`: `draws` are the results of `random()`, of which the first that is not below a
-- quarter ends the loop.
unfoldable pub random_level : List ℕ → ℕ
random_level draws = min (tries draws) skiplist_maxlevel
  where
    tries : List ℕ → ℕ
    tries [] = 1
    tries (d ∷ ds) = let more = suc (tries ds) in if ltb (d % 2 ^ 16 * 4) 65535 then more else 1

-- One `while` loop of a search, at level `i`: from node `x` at rank `r`, forward as long as `go`
-- holds of the rank that is reached and of the node there.
unfoldable pub walk : (ℕ → Node → Bool) → Nodes → ℕ → ℕ → ℕ → ℕ → ℕ × ℕ
walk go s i zero x r = (x, r)
walk go s i (suc fuel) x r = elim ((s x).level i).forward [
  | none ↦ (x, r)
  | some y ↦
      let r' = r + ((s x).level i).span in
      let further = walk go s i fuel y r' in if go r' (s y) then further else (x, r)
]

-- The `for` loop over the levels below `n`. Slot `i` of the array gets `update[i]` and `rank[i]`.
unfoldable pub descend : (ℕ → Node → Bool) → Nodes → ℕ → ℕ → ℕ → ℕ → (ℕ → ℕ × ℕ) → (ℕ → ℕ × ℕ)
descend go s fuel zero x r found = found
descend go s fuel (suc i) x r found =
    let here = walk go s i fuel x r in descend go s fuel i here.0 here.1 (update found i here)

-- the search of an operation from the header, with the array as it was
unfoldable pub search_path : (ℕ → Node → Bool) → SkipList → (ℕ → ℕ × ℕ) → (ℕ → ℕ × ℕ)
search_path go sl garbage = descend go sl.nodes sl.length sl.level sl.header 0 garbage

-- the test of `slInsert` and `slDelete`
unfoldable pub is_before : ℕ → List ℕ → ℕ → Node → Bool
is_before score obj r n =
    ltb n.score score
    || (n.score == score) && elim n.obj [ none ↦ false | some o ↦ is_neg (compare_obj o obj) ]

-- `for (i = sl->level; i < level; i++)` of `slInsert`, with `n` rounds to go
unfoldable pub raise_levels : ℕ → ℕ → SkipList → Nodes × (ℕ → ℕ × ℕ) → Nodes × (ℕ → ℕ × ℕ)
raise_levels zero i sl st = st
raise_levels (suc n) i sl (s, found) = raise_levels n (i + 1) sl (
  set_level s sl.header i (record ((s sl.header).level i) { span = sl.length }),
  update found i (sl.header, 0),
)

-- `for (i = 0; i < level; i++)`
unfoldable pub link_levels : ℕ → ℕ → (ℕ → ℕ × ℕ) → ℕ → Nodes → Nodes
link_levels zero i found x s = s
link_levels (suc n) i found x s =
    let (u, r) = found i in
    let old = (s u).level i in
    let crossed = (found 0).1 - r in
    let s' = set_level s x i (record { forward = old.forward; span = old.span - crossed }) in
    link_levels n (i + 1) found x
      (set_level s' u i (record { forward = some x; span = crossed + 1 }))

-- `for (i = level; i < sl->level; i++)`
unfoldable pub bump_levels : ℕ → ℕ → (ℕ → ℕ × ℕ) → Nodes → Nodes
bump_levels zero i found s = s
bump_levels (suc n) i found s =
    let u = (found i).0 in
    let old = (s u).level i in
    bump_levels n (i + 1) found (set_level s u i (record old { span = old.span + 1 }))

-- The end of `slInsert`: the pointer backward of the next node, or the tail.
unfoldable pub finish_insert : SkipList → ℕ → Nodes → ℕ → SkipList
finish_insert sl top s x = elim ((s x).level 0).forward [
  | none ↦ record sl { level = top; nodes = s; tail = some x; length = sl.length + 1 }
  | some y ↦ record sl { level = top; nodes = set_backward s y (some x); length = sl.length + 1 }
]

-- `slInsert` from the new level on, with the new node at `x`
unfoldable pub insert_at : SkipList → (ℕ → ℕ × ℕ) → ℕ → ℕ → Node → SkipList
insert_at sl found level x node =
    let raised = raise_levels (level - sl.level) sl.level sl (sl.nodes, found) in
    let top = if ltb sl.level level then level else sl.level in
    let s = update raised.0 x node in
    let s = link_levels level 0 raised.1 x s in
    let s = bump_levels (top - level) level raised.1 s in
    let u = (raised.1 0).0 in
    let s = set_backward s x (if u == sl.header then none else some u) in finish_insert sl top s x

-- `slInsert`
unfoldable pub insert : (ℕ → ℕ × ℕ) → List ℕ → ℕ → SkipList → ℕ → List ℕ → SkipList
insert garbage draws x sl score obj =
    insert_at sl (search_path (is_before score obj) sl garbage) (random_level draws) x
      (create_node (sl.nodes x) score obj)
