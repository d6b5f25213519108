-- ===== src/SkipList/Insert.antt =====
-- The loops of `slInsert`: every link and span with the new node among them.
use rillserver.Prelude.{
  ℕ, ◌+◌, ◌-◌, ◌<◌, ◌≡◌, ◌≢◌, refl, sym, subst, ◌∙◌, arith, Bool, true, false, ◌&&◌, Option, none,
  some, List, [], ◌∷◌, ◌++◌, length, ltb, leb, ◌==◌, if◌then◌else◌, Bool-cases, inl, inr,
}
use rillserver.SkipList.{Level, Nodes, set_backward, link_levels, bump_levels}
use rillserver.SkipList.Wired.{IsWiredNode, WiredAfter, WiredBefore, last_at}
use rillserver.SkipList.Levels.{level-link_levels, level-bump_levels}
use rillserver.SkipList.Join.{
  DistinctBefore, level_after, nodes_before, node_new, nodes_after, AllLow, last_at-out,
}
use rillserver.SkipList.Inv.{AllTowers, last_at-update}
use rillserver.SkipList.Raise.{new_height, raised-found}
use rillserver.SkipList.Zip
use rillserver.SkipList.Place.{level-set_backward}
use rillserver.SkipList.Placed.{
  Insertion, xs, rs, up, top, towers, placed, header_ne, towers-header, towers-x, placed-header,
  placed-wired, towers-AllTowers, header-out, x-out, towers_cut, in_top,
}

module _ (ins : Insertion) where
  open ins use {
    height, sl, before, behind, sound, elem, x, level, found, level_up, level_in, fresh, path,
  }

  abbrev pub linked_nodes : Nodes
  linked_nodes = link_levels level 0 (up ins).1 x (placed ins)

  abbrev pub looped : Nodes
  looped = bump_levels (top ins - level) level (up ins).1 linked_nodes

  abbrev pub back : Option ℕ
  back = if ((up ins).1 0).0 == sl.header then none else some ((up ins).1 0).0

  abbrev pub backed : Nodes
  backed = set_backward looped x back

  -- `x->level[0].forward->backward = x`
  abbrev pub final : Nodes
  final = elim behind [ [] ↦ backed | y ∷ ys ↦ set_backward backed y (some x) ]

  pub path_up : (k : ℕ) → k < top ins → (up ins).1 k ≡ last_at (towers ins) sl.header k (rs ins)
  path_up k lt =
      raised-found height sl (xs ins) sound level found level_in (rs ins) (towers_cut ins).0
        (header-out ins).0 path k lt
      ∙ sym (
          last_at-update (new_height height sl (xs ins) sound level found level_in) sl.header x
            level k (rs ins) (x-out ins).0)

  and_false : (b : Bool) → (b && false) ≡ false
  and_false true = refl
  and_false false = refl

  found-ne : (k : ℕ) → k < top ins → ((up ins).1 k).0 ≢ x
  found-ne k lt =
      rw (path_up k lt)
        (Zip.last_at-ne (towers ins) sl.header k x (rs ins) (header_ne ins) (x-out ins).0)

  pub lowest :
      ((last_at (towers ins) sl.header 0 (rs ins)).1 ≡ length (rs ins))
      × ((if (last_at (towers ins) sl.header 0 (rs ins)).0 == sl.header
            then none
            else some (last_at (towers ins) sl.header 0 (rs ins)).0)
          ≡ Zip.back_of (towers ins) sl.header (rs ins))
  lowest =
      Zip.last_at-lowest (towers ins) sl.header (top ins) (rs ins)
        (towers-AllTowers ins (rs ins) (header-out ins).0 (x-out ins).0 (towers_cut ins).0)
        (header-out ins).0

  unfoldable pub after : ℕ → ℕ → Level
  after =
      level_after (towers ins) sl.header (placed ins) (up ins).1 x level (top ins) (rs ins) behind
        (towers-header ins) (towers-x ins) (in_top ins) level_up path_up lowest.0

  pub level-looped : (a j : ℕ) → (looped a).level j ≡ after a j
  unfolding after
  level-looped a j =
      let link =
        level-link_levels (up ins).1 x level 0 (placed ins) a j
          (λ k lt. found-ne k (ground arith)) in
      level-bump_levels (up ins).1 x (top ins - level) level linked_nodes a j
      ∙ elim (Bool-cases (ltb j level)) [
        | inl e ↦
            let low : leb level j ≡ false = ground arith in
            let high : leb 0 j ≡ true = ground arith in
            let below : ltb j (0 + level) ≡ true = ground arith in rw (low, link, e, high, below)
        | inr e ↦
            let up_there : leb level j ≡ true = ground arith in
            let beyond : ltb j (0 + level) ≡ false = ground arith in
            let same : (linked_nodes a).level j ≡ (placed ins a).level j =
              link ∙ rw (beyond, and_false (leb 0 j)) in
            let rounds : level + (top ins - level) ≡ top ins = ground arith in
            rw (up_there, same, e, rounds)
      ]

  pub level-final : (a j : ℕ) → (final a).level j ≡ after a j
  level-final a j = at_behind behind refl
    where
      once : (backed a).level j ≡ after a j
      once = level-set_backward looped x back a j ∙ level-looped a j

      at_behind : (ys : List ℕ) → behind ≡ ys → (final a).level j ≡ after a j
      at_behind [] e = rw e once
      at_behind (y ∷ ys) e = rw e (level-set_backward backed y (some x) a j ∙ once)

  pub back-before : back ≡ Zip.back_of (towers ins) sl.header (rs ins)
  back-before = rw (path_up 0 (ground arith)) lowest.1

  all_low : (ys : List ℕ) → AllTowers (towers ins) (top ins) ys → AllLow (towers ins) (top ins) ys
  all_low [] t = tt
  all_low (b ∷ ys) t = (t.0.1, all_low ys t.1)

  -- The nodes are wired with the new one among them.
  zipped :
      WiredBefore (towers ins) sl.header (placed ins) (rs ins) behind
      × WiredAfter (towers ins) sl.header (placed ins) behind
  zipped =
      Zip.zip-wired (towers ins) sl.header (placed ins) before [] behind (placed-header ins)
        (placed-wired ins (xs ins) sound.distinct.0 fresh.1 sound.wired)

  distinct_before : DistinctBefore sl.header (rs ins) behind
  distinct_before =
      Zip.zip-distinct (towers ins) sl.header before [] behind sound.distinct.0 sound.distinct.1

  pub new-wired : IsWiredNode (towers ins) sl.header final x behind
  new-wired j lt =
      level-final x j
      ∙ unfold after in
        node_new (towers ins) sl.header (placed ins) (up ins).1 x level (top ins) (rs ins) behind
          (towers-header ins) (towers-x ins) (in_top ins) level_up path_up lowest.0 j
          (subst (λ (k : ℕ). j < k) (towers-x ins) lt) zipped.0

  behind-wired : WiredAfter (towers ins) sl.header final behind
  unfolding after
  behind-wired =
      nodes_after (towers ins) sl.header (placed ins) (up ins).1 x level (top ins) (rs ins) behind
        (towers-header ins) (towers-x ins) (in_top ins) level_up path_up lowest.0 final behind
        level-final (x-out ins).1
        (λ j. last_at-out (towers ins) sl.header j (rs ins) behind distinct_before) zipped.1

  before-wired : WiredBefore (towers ins) sl.header final (rs ins) (x ∷ behind)
  unfolding after
  before-wired =
      nodes_before (towers ins) sl.header (placed ins) (up ins).1 x level (top ins) (rs ins) behind
        (towers-header ins) (towers-x ins) (in_top ins) level_up path_up lowest.0 final (rs ins) []
        level-final refl (header_ne ins) (x-out ins).0 distinct_before (omega arith)
        (all_low (rs ins)
          (towers-AllTowers ins (rs ins) (header-out ins).0 (x-out ins).0 (towers_cut ins).0))
        zipped.0

  pub final-wired :
      IsWiredNode (towers ins) sl.header final sl.header (before ++ (x ∷ behind))
      × WiredAfter (towers ins) sl.header final (before ++ (x ∷ behind))
  final-wired =
      Zip.unzip-wired (towers ins) sl.header final before [] (x ∷ behind) before-wired
        (new-wired, behind-wired)
