-- ===== src/SkipList/Delete/Removal.antt =====
-- A removal: the sound list, the node which goes, and the store that `slDeleteNode` leaves.
use rillserver.Prelude.{
  ℕ, ◌+◌, ◌<◌, ◌≤◌, ◌≡◌, refl, ap, sym, subst, ◌∙◌, arith, true, false, none, some, List, [], ◌∷◌,
  ◌++◌, ltb, leb, ◌==◌, ==_iff, Bool-cases, inl, inr, ltb→lt,
}
use rillserver.Prelude.Ring.{update}
use rillserver.Prelude.Distinct.{NotIn}
use rillserver.SkipList.{Level, Nodes, SkipList, skiplist_maxlevel, set_backward}
use rillserver.SkipList.Wired.{next_at, IsWiredNode, WiredAfter, WiredBefore, last_at, onto}
use rillserver.SkipList.Join.{DistinctBefore, AllLow, last_at-out}
use rillserver.SkipList.Inv.{IsSkipList, AllTowers, next_at-update}
use rillserver.SkipList.Place.{level-set_backward}
use rillserver.SkipList.Backward.{AllDistinct-right}
use rillserver.SkipList.Zip
use rillserver.SkipList.Delete.{unlink_levels, shrink}
use rillserver.SkipList.Delete.Unlink.{level-unlink_levels, Shrunk, shrink-Shrunk}
use rillserver.SkipList.Delete.Cut.{level_cut, cut_after, cut_before}

pub record Removal : Type 0 where
  pub height : ℕ → ℕ
  pub sl : SkipList
  pub before : List ℕ
  pub x : ℕ
  pub behind : List ℕ
  pub sound : IsSkipList height sl (before ++ (x ∷ behind))
  pub found : ℕ → ℕ × ℕ
  pub path :
      (k : ℕ)
      → k < sl.level
      → found k ≡ last_at height sl.header k (onto height sl.header before [])

all_low : (height : ℕ → ℕ) (top : ℕ) (ys : List ℕ) → AllTowers height top ys → AllLow height top ys
all_low height top [] t = tt
all_low height top (b ∷ ys) t = (t.0.1, all_low height top ys t.1)

-- The towers of a list whose level is empty.
pub AllTowers-shrunk :
    (height : ℕ → ℕ) (header top n : ℕ) (xs : List ℕ)
    → n ≤ top
    → AllTowers height top xs
    → (n < top → (next_at height header n xs).forward ≡ none)
    → AllTowers height n xs
AllTowers-shrunk height header top n [] le t empty = tt
AllTowers-shrunk height header top n (b ∷ xs) le t empty = elim (Bool-cases (ltb n (height b))) [
  | inl tall ↦
      let lt : n < top = omega (arith, ltb→lt n (height b) tall, t.0.1) in
      let no : some b ≡ none = rw tall at (empty lt) in absurd (cc)
  | inr low ↦ (
    (t.0.0, ground arith),
    AllTowers-shrunk height header top n xs le t.1 (λ lt. rw low at (empty lt)),
  )
]

module _ (rem : Removal) where
  open rem use {height, sl, before, x, behind, sound, found, path}

  abbrev pub xs : List ℕ
  xs = before ++ behind

  abbrev pub rs : List ℕ
  rs = onto height sl.header before []

  abbrev pub looped : Nodes
  looped = unlink_levels sl.level 0 found x sl.nodes

  -- `x->level[0].forward->backward = x->backward`
  abbrev pub final : Nodes
  final = elim behind [ [] ↦ looped | y ∷ ys ↦ set_backward looped y (looped x).backward ]

  abbrev pub new_top : ℕ
  new_top = shrink (final sl.header).level sl.level

  abbrev pub towers : ℕ → ℕ
  towers = update height sl.header new_top

  pub distinct_cut : DistinctBefore sl.header rs (x ∷ behind)
  distinct_cut =
      Zip.zip-distinct height sl.header before [] (x ∷ behind) sound.distinct.0 sound.distinct.1

  pub zipped :
      WiredBefore height sl.header sl.nodes rs (x ∷ behind)
      × WiredAfter height sl.header sl.nodes (x ∷ behind)
  zipped =
      Zip.zip-wired height sl.header sl.nodes before [] (x ∷ behind) sound.wired_header sound.wired

  pub x_out : NotIn x behind
  x_out = (AllDistinct-right before (x ∷ behind) sound.distinct.1).0

  unfoldable pub after : ℕ → ℕ → Level
  after =
      level_cut height sl.header sl.nodes found x sl.level rs behind sound.top path x_out zipped.1.0

  level-looped : (a j : ℕ) → (looped a).level j ≡ after a j
  unfolding after
  level-looped a j =
      let from : leb 0 j ≡ true = ground arith in
      let all : 0 + sl.level ≡ sl.level = omega arith in
      level-unlink_levels found x sl.level 0 sl.nodes a j ∙ rw (from, all)

  pub level-final : (a j : ℕ) → (final a).level j ≡ after a j
  level-final a j = at_behind behind refl
    where
      at_behind : (ys : List ℕ) → behind ≡ ys → (final a).level j ≡ after a j
      at_behind [] e = rw e (level-looped a j)
      at_behind (y ∷ ys) e =
          rw e (level-set_backward looped y (looped x).backward a j ∙ level-looped a j)

  apart_cut : (j : ℕ) → NotIn (last_at height sl.header j rs).0 (x ∷ behind)
  apart_cut j = last_at-out height sl.header j rs (x ∷ behind) distinct_cut

  -- The node that goes still points behind the place.
  pub looped-wired : WiredAfter height sl.header looped (x ∷ behind)
  unfolding after
  looped-wired =
      cut_after height sl.header sl.nodes found x sl.level rs behind sound.top path x_out zipped.1.0
        looped (x ∷ behind) level-looped apart_cut zipped.1

  pub final-wired :
      IsWiredNode height sl.header final sl.header xs × WiredAfter height sl.header final xs
  unfolding after
  final-wired =
      let (low, low') =
        Zip.AllTowers-onto height sl.header sl.level before [] (x ∷ behind) tt sound.towers in
      Zip.unzip-wired height sl.header final before [] behind
        (cut_before height sl.header sl.nodes found x sl.level rs behind sound.top path x_out
          zipped.1.0 final rs [] level-final refl distinct_cut (all_low height sl.level rs low)
          zipped.0)
        (cut_after height sl.header sl.nodes found x sl.level rs behind sound.top path x_out
          zipped.1.0 final behind level-final (λ j. (apart_cut j).1) zipped.1.1)

  pub shrunk : Shrunk (final sl.header).level sl.level
  shrunk = shrink-Shrunk (final sl.header).level sl.level sound.level_up

  pub header_out : NotIn sl.header xs
  header_out = NotIn-drop sl.header before behind sound.distinct.0
    where
      NotIn-drop : (a : ℕ) (ys zs : List ℕ) → NotIn a (ys ++ (x ∷ zs)) → NotIn a (ys ++ zs)
      NotIn-drop a [] zs out = out.1
      NotIn-drop a (b ∷ ys) zs out = (out.0, NotIn-drop a ys zs out.1)

  towers-wired :
      (ys : List ℕ)
      → NotIn sl.header ys
      → WiredAfter height sl.header final ys
      → WiredAfter towers sl.header final ys
  towers-wired [] out w = tt
  towers-wired (b ∷ ys) out w =
      let other : (sl.header == b) ≡ false = ground arith in
      (
        (λ j lt.
            w.0 j (subst (λ (k : ℕ). j < k) (rw other) lt)
            ∙ sym (next_at-update height sl.header sl.header new_top j ys out.1)),
        towers-wired ys out.1 w.1,
      )

  pub towers-header : towers sl.header ≡ new_top
  towers-header = let self : (sl.header == sl.header) ≡ true = (==_iff _ _).1 refl in rw self

  pub wired_after :
      IsWiredNode towers sl.header final sl.header xs × WiredAfter towers sl.header final xs
  wired_after = (
    (λ j lt.
        final-wired.0 j (omega (arith, lt, towers-header, shrunk.at_most, sound.top))
        ∙ sym (next_at-update height sl.header sl.header new_top j xs header_out)),
    towers-wired xs header_out final-wired.1,
  )

  pub unused_after :
      (j : ℕ) → new_top ≤ j → j < skiplist_maxlevel → ((final sl.header).level j).forward ≡ none
  unfolding after
  unused_after j high in_max = elim (Bool-cases (ltb j sl.level)) [
    | inl inside ↦ shrunk.dropped j high (ltb→lt j sl.level inside)
    | inr outside ↦
        ap (λ l. l.forward) (level-final sl.header j)
        ∙ rw outside (sound.unused j (ground arith) in_max)
  ]

  pub bounds : (1 ≤ new_top) × (new_top ≤ skiplist_maxlevel)
  bounds = (shrunk.at_least, omega (arith, shrunk.at_most, sound.level_in))
