-- ===== src/SkipList/Placed.antt =====
-- An insertion: the sound list and the new node before the loops link it.
use rillserver.Prelude.{
  ℕ, ◌<◌, ◌≤◌, ◌≡◌, ◌≢◌, refl, ap, sym, subst, ◌∙◌, arith, true, false, List, [], ◌∷◌, ◌++◌, ◌==◌,
  ==_iff,
}
use rillserver.Prelude.Ring.{update}
use rillserver.Prelude.Distinct.{NotIn}
use rillserver.SkipList.{Node, Nodes, SkipList, skiplist_maxlevel, create_node}
use rillserver.SkipList.Wired.{next_at, IsWiredNode, WiredAfter, last_at, onto}
use rillserver.SkipList.Order.{Element}
use rillserver.SkipList.Inv.{IsSkipList, AllTowers, next_at-update}
use rillserver.SkipList.Raise.{raised, new_top, new_height, raised-header, raised-other}
use rillserver.SkipList.Zip

pub record Insertion : Type 0 where
  pub height : ℕ → ℕ
  pub sl : SkipList
  pub before : List ℕ
  pub behind : List ℕ
  pub sound : IsSkipList height sl (before ++ behind)
  pub elem : Element
  pub x : ℕ
  pub level : ℕ
  pub found : ℕ → ℕ × ℕ
  pub level_up : 1 ≤ level
  pub level_in : level ≤ skiplist_maxlevel
  pub fresh : NotIn x (sl.header ∷ (before ++ behind))
  pub path :
      (k : ℕ)
      → k < sl.level
      → found k ≡ last_at height sl.header k (onto height sl.header before [])

module _ (ins : Insertion) where
  open ins use {height, sl, before, behind, sound, elem, x, level, found, level_in, fresh, path}

  abbrev pub xs : List ℕ
  xs = before ++ behind

  abbrev pub rs : List ℕ
  rs = onto height sl.header before []

  abbrev pub up : Nodes × (ℕ → ℕ × ℕ)
  up = raised height sl xs sound level found level_in

  abbrev pub top : ℕ
  top = new_top height sl xs sound level found level_in

  abbrev pub towers : ℕ → ℕ
  towers = update (new_height height sl xs sound level found level_in) x level

  -- the store with the new node in it, not linked yet
  abbrev pub placed : Nodes
  placed = update up.0 x (create_node (sl.nodes x) elem.score elem.obj)

  pub in_top : level ≤ top
  in_top = ground arith

  pub header_ne : sl.header ≢ x
  header_ne i = fresh.0 (sym i)

  pub towers-header : towers sl.header ≡ top
  towers-header =
      let self : (sl.header == sl.header) ≡ true = (==_iff _ _).1 refl in
      let other : (x == sl.header) ≡ false = ground arith in rw (other, self)

  pub towers-x : towers x ≡ level
  towers-x = let self : (x == x) ≡ true = (==_iff x x).1 refl in rw self

  pub towers-else : (b : ℕ) → sl.header ≢ b → x ≢ b → towers b ≡ height b
  towers-else b ne ne' =
      let other : (sl.header == b) ≡ false = ground arith in
      let other' : (x == b) ≡ false = ground arith in rw (other', other)

  pub placed-else : (a : ℕ) → x ≢ a → placed a ≡ up.0 a
  placed-else a ne = let other : (x == a) ≡ false = ground arith in rw other

  pub next_at-towers :
      (i : ℕ) (ys : List ℕ)
      → NotIn sl.header ys
      → NotIn x ys
      → next_at towers sl.header i ys ≡ next_at height sl.header i ys
  next_at-towers i ys out out' =
      next_at-update (new_height height sl xs sound level found level_in) sl.header x level i ys
        out'
      ∙ next_at-update height sl.header sl.header top i ys out

  pub placed-header : IsWiredNode towers sl.header placed sl.header xs
  placed-header j lt =
      ap (λ (n : Node). n.level j) (placed-else sl.header fresh.0)
      ∙ raised-header height sl xs sound level found level_in j (
          subst (λ (k : ℕ). j < k) (let other : (x == sl.header) ≡ false = ground arith in rw other)
            lt)
      ∙ sym (
          next_at-update (new_height height sl xs sound level found level_in) sl.header x level j xs
            fresh.1)

  pub placed-wired :
      (ys : List ℕ)
      → NotIn sl.header ys
      → NotIn x ys
      → WiredAfter height sl.header sl.nodes ys
      → WiredAfter towers sl.header placed ys
  placed-wired [] out out' w = tt
  placed-wired (b ∷ ys) out out' w = (
    (λ j lt.
        ap (λ (n : Node). n.level j) (placed-else b out'.0)
        ∙ raised-other height sl xs sound level found level_in b out.0 j
        ∙ w.0 j (subst (λ (k : ℕ). j < k) (towers-else b out.0 out'.0) lt)
        ∙ sym (next_at-towers j ys out.1 out'.1)),
    placed-wired ys out.1 out'.1 w.1,
  )

  pub towers-AllTowers :
      (ys : List ℕ)
      → NotIn sl.header ys
      → NotIn x ys
      → AllTowers height sl.level ys
      → AllTowers towers top ys
  towers-AllTowers [] out out' t = tt
  towers-AllTowers (b ∷ ys) out out' t =
      let e = towers-else b out.0 out'.0 in
      let in_top : sl.level ≤ top = ground arith in
      ((omega (arith, e, t.0), omega (arith, e, t.0, in_top)), towers-AllTowers ys out.1 out'.1 t.1)

  pub header-out : NotIn sl.header rs × NotIn sl.header behind
  header-out = Zip.NotIn-onto height sl.header sl.header before [] behind tt sound.distinct.0

  pub x-out : NotIn x rs × NotIn x behind
  x-out = Zip.NotIn-onto height sl.header x before [] behind tt fresh.1

  pub towers_cut : AllTowers height sl.level rs × AllTowers height sl.level behind
  towers_cut = Zip.AllTowers-onto height sl.header sl.level before [] behind tt sound.towers
