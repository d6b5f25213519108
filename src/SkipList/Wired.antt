-- ===== src/SkipList/Wired.antt =====
-- What the links and spans of a skip list must be, given the nodes in their order.
use rillserver.Prelude.{ℕ, suc, ◌<◌, ◌≡◌, none, some, List, [], ◌∷◌, length, ltb, if◌then◌else◌}
use rillserver.SkipList.{Level, Nodes}

-- The nodes in order, `height` being how many levels a node has.
module _ (height : ℕ → ℕ) (header : ℕ) where
  -- Level `i` of a node with the nodes `xs` behind it: the first one that is tall enough, and how
  -- far away it is; or, at the end, how many nodes are left.
  abbrev pub next_at : ℕ → List ℕ → Level
  next_at i [] = record { forward = none; span = 0 }
  next_at i (b ∷ xs) =
      if ltb i (height b)
      then record { forward = some b; span = 1 }
      else record { forward = (next_at i xs).forward; span = suc (next_at i xs).span }

  abbrev pub IsWiredNode : Nodes → ℕ → List ℕ → Type 0
  IsWiredNode s a xs = (i : ℕ) → i < height a → (s a).level i ≡ next_at i xs

  -- All of these nodes are wired, `xs` being in order.
  abbrev pub WiredAfter : Nodes → List ℕ → Type 0
  WiredAfter s [] = Unit
  WiredAfter s (b ∷ xs) = IsWiredNode s b xs × WiredAfter s xs

  -- The header and the nodes `rs`, the last one first, are wired, with `xs` behind them.
  abbrev pub WiredBefore : Nodes → List ℕ → List ℕ → Type 0
  WiredBefore s [] xs = IsWiredNode s header xs
  WiredBefore s (b ∷ rs) xs = IsWiredNode s b xs × WiredBefore s rs (b ∷ xs)

  -- The last node of level `i` and its rank, among the header and `rs`, the last one first.
  abbrev pub last_at : ℕ → List ℕ → ℕ × ℕ
  last_at i [] = (header, 0)
  last_at i (b ∷ rs) = if ltb i (height b) then (b, suc (length rs)) else last_at i rs

  -- `xs` in order put in front of `rs`, the last one first
  abbrev pub onto : List ℕ → List ℕ → List ℕ
  onto [] rs = rs
  onto (b ∷ xs) rs = onto xs (b ∷ rs)
