-- ===== src/SkipList/Raise.antt =====
-- The header with the levels that a new node needs, and the search path on them.
use rillserver.Prelude.{
  ℕ, ◌+◌, ◌-◌, ◌<◌, ◌≤◌, ◌≡◌, ◌≢◌, refl, sym, ◌∙◌, arith, true, false, ◌&&◌, none, List, [], ◌∷◌,
  length, ltb, leb, ◌==◌, ==_iff, if◌then◌else◌, Bool-cases, inl, inr, ltb→lt,
}
use rillserver.Prelude.Ring.{update}
use rillserver.Prelude.Distinct.{NotIn}
use rillserver.SkipList.{Nodes, SkipList, skiplist_maxlevel, raise_levels}
use rillserver.SkipList.Wired.{next_at, IsWiredNode, last_at}
use rillserver.SkipList.Search.{farther_eq}
use rillserver.SkipList.Levels.{level-raise_levels, found-raise_levels}
use rillserver.SkipList.Inv.{IsSkipList, AllTowers, next_at-update, last_at-update}

-- No node reaches an unused level.
next_at-none :
    (height : ℕ → ℕ) (header top i : ℕ) (xs : List ℕ)
    → AllTowers height top xs
    → top ≤ i
    → next_at height header i xs ≡ record { forward = none; span = length xs }
next_at-none height header top i [] t le = refl
next_at-none height header top i (b ∷ xs) t le =
    let low : ltb i (height b) ≡ false = ground arith in
    rw (low, next_at-none height header top i xs t.1 le)

last_at-none :
    (height : ℕ → ℕ) (header top i : ℕ) (rs : List ℕ)
    → AllTowers height top rs
    → top ≤ i
    → last_at height header i rs ≡ (header, 0)
last_at-none height header top i [] t le = refl
last_at-none height header top i (b ∷ rs) t le =
    let low : ltb i (height b) ≡ false = ground arith in
    rw (low, last_at-none height header top i rs t.1 le)

module _ (height : ℕ → ℕ) (sl : SkipList) (xs : List ℕ) (v : IsSkipList height sl xs) (level : ℕ)
    (found : ℕ → ℕ × ℕ) (level_in : level ≤ skiplist_maxlevel) where
  abbrev pub raised : Nodes × (ℕ → ℕ × ℕ)
  raised = raise_levels (level - sl.level) sl.level sl (sl.nodes, found)

  abbrev pub new_top : ℕ
  new_top = if ltb sl.level level then level else sl.level

  abbrev pub new_height : ℕ → ℕ
  new_height = update height sl.header new_top

  pub raised-header : IsWiredNode new_height sl.header raised.0 sl.header xs
  raised-header j lt =
      let self : (sl.header == sl.header) ≡ true = (==_iff sl.header sl.header).1 refl in
      let lt' : j < new_top = rw self at lt in
      level-raise_levels sl (level - sl.level) sl.level sl.nodes found sl.header j
      ∙ elim (Bool-cases (ltb j sl.level)) [
        | inl below ↦
            let outside : (leb sl.level j && ltb j (sl.level + (level - sl.level))) ≡ false =
              ground arith in
            rw (self, outside) (v.wired_header j (omega (arith, v.top, ltb→lt j sl.level below)))
        | inr above ↦
            let inside : (leb sl.level j && ltb j (sl.level + (level - sl.level))) ≡ true =
              ground arith in
            rw (self, inside, v.unused j (ground arith) (ground (arith, v.level_in)))
              (farther_eq none v.count
                ∙ sym (next_at-none height sl.header sl.level j xs v.towers (ground arith)))
      ]
      ∙ sym (next_at-update height sl.header sl.header new_top j xs v.distinct.0)

  pub raised-other : (a : ℕ) → sl.header ≢ a → (j : ℕ) → (raised.0 a).level j ≡ (sl.nodes a).level j
  raised-other a ne j =
      let other : (sl.header == a) ≡ false = ground arith in
      level-raise_levels sl (level - sl.level) sl.level sl.nodes found a j ∙ rw other

  pub raised-found :
      (rs : List ℕ)
      → AllTowers height sl.level rs
      → NotIn sl.header rs
      → ((k : ℕ) → k < sl.level → found k ≡ last_at height sl.header k rs)
      → (k : ℕ) → k < new_top
      → raised.1 k ≡ last_at new_height sl.header k rs
  raised-found rs t out path k lt =
      found-raise_levels sl (level - sl.level) sl.level sl.nodes found k
      ∙ elim (Bool-cases (ltb k sl.level)) [
        | inl below ↦
            let outside : (leb sl.level k && ltb k (sl.level + (level - sl.level))) ≡ false =
              ground arith in
            rw outside (path k (ltb→lt k sl.level below))
        | inr above ↦
            let inside : (leb sl.level k && ltb k (sl.level + (level - sl.level))) ≡ true =
              ground arith in
            rw inside (sym (last_at-none height sl.header sl.level k rs t (ground arith)))
      ]
      ∙ sym (last_at-update height sl.header sl.header new_top k rs out)
