-- ===== src/SkipList/Inv.antt =====
-- A skip list that is sound, and the nodes that it has.
use rillserver.Prelude.{
  ℕ, ◌<◌, ◌≤◌, ◌≡◌, refl, arith, false, Option, none, some, List, [], ◌∷◌, length, ◌==◌,
}
use rillserver.Prelude.Ring.{update}
use rillserver.Prelude.Distinct.{NotIn, AllDistinct}
use rillserver.SkipList.{Nodes, SkipList, skiplist_maxlevel}
use rillserver.SkipList.Wired.{next_at, IsWiredNode, WiredAfter, last_at}
use rillserver.SkipList.Order.{elements, IsSorted}

-- Each node points back to the one before it.
abbrev pub Backed : Nodes → Option ℕ → List ℕ → Type 0
Backed s p [] = Unit
Backed s p (b ∷ xs) = ((s b).backward ≡ p) × Backed s (some b) xs

abbrev pub end_of : Option ℕ → List ℕ → Option ℕ
end_of p [] = p
end_of p (b ∷ xs) = end_of (some b) xs

abbrev pub AllTowers : (ℕ → ℕ) → ℕ → List ℕ → Type 0
AllTowers height top [] = Unit
AllTowers height top (b ∷ xs) = ((1 ≤ height b) × (height b ≤ top)) × AllTowers height top xs

-- Each node has an object.
abbrev pub AllValued : Nodes → List ℕ → Type 0
AllValued s [] = Unit
AllValued s (b ∷ xs) = ((o : List ℕ) × ((s b).obj ≡ some o)) × AllValued s xs

-- `height` says how many levels a node has, the header's being those in use.
pub record IsSkipList (height : ℕ → ℕ) (sl : SkipList) (xs : List ℕ) : Type 0 where
  pub wired_header : IsWiredNode height sl.header sl.nodes sl.header xs
  pub wired : WiredAfter height sl.header sl.nodes xs
  pub top : height sl.header ≡ sl.level
  pub unused :
      (j : ℕ) → sl.level ≤ j → j < skiplist_maxlevel → ((sl.nodes sl.header).level j).forward ≡ none
  pub level_up : 1 ≤ sl.level
  pub level_in : sl.level ≤ skiplist_maxlevel
  pub towers : AllTowers height sl.level xs
  pub distinct : AllDistinct (sl.header ∷ xs)
  pub count : sl.length ≡ length xs
  pub no_obj : (sl.nodes sl.header).obj ≡ none
  pub valued : AllValued sl.nodes xs
  pub sorted : IsSorted (elements sl.nodes xs)
  pub backed : Backed sl.nodes none xs
  pub ends : sl.tail ≡ end_of none xs

-- Heights of other nodes do not count.
module _ (height : ℕ → ℕ) (header p v : ℕ) where
  pub next_at-update :
      (i : ℕ) (xs : List ℕ)
      → NotIn p xs
      → next_at (update height p v) header i xs ≡ next_at height header i xs
  next_at-update i [] out = refl
  next_at-update i (b ∷ xs) out =
      let other : (p == b) ≡ false = ground arith in rw (other, next_at-update i xs out.1)

  pub last_at-update :
      (i : ℕ) (rs : List ℕ)
      → NotIn p rs
      → last_at (update height p v) header i rs ≡ last_at height header i rs
  last_at-update i [] out = refl
  last_at-update i (b ∷ rs) out =
      let other : (p == b) ≡ false = ground arith in rw (other, last_at-update i rs out.1)
