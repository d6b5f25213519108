-- ===== src/SkipList/Inserted.antt =====
-- The list that `slInsert` leaves.
use rillserver.Prelude.{
  ℕ, ◌+◌, ◌-◌, ◌<◌, ◌≤◌, ◌≡◌, ◌≢◌, refl, ap, sym, subst, ◌∙◌, arith, Bool, true, false, ◌&&◌,
  Option, none, some, List, [], ◌∷◌, ◌++◌, ltb, leb, ◌==◌, ==_iff,
}
use rillserver.Prelude.Distinct.{NotIn, AllDistinct}
use rillserver.SkipList.{skiplist_maxlevel}
use rillserver.SkipList.Levels.{level-raise_levels}
use rillserver.SkipList.Order.{element, elements}
use rillserver.SkipList.Inv.{AllValued, Backed, end_of}
use rillserver.SkipList.Fields.{
  SameValue, SameValue-trans, raise_levels-SameValue, link_levels-SameValue, bump_levels-SameValue,
}
use rillserver.SkipList.Zip
use rillserver.SkipList.Placed.{
  Insertion, up, top, towers, placed, header_ne, placed-else, x-out, in_top,
}
use rillserver.SkipList.Backward.{
  kept_value, FirstNe, AllFirstNe, AllFirstNe-before, AllFirstNe-behind, Backed-split, Backed-join,
  AllDistinct-right, NotIn-cut,
}
use rillserver.SkipList.Insert.{
  linked_nodes, looped, back, backed, final, after, level-final, back-before,
}
use rillserver.SkipList.Inv.{end_of}

and_no : (b : Bool) → (b && false) ≡ false
and_no true = refl
and_no false = refl

module _ (ins : Insertion) where
  open ins use {
    height, sl, before, behind, sound, elem, x, level, found, level_up, level_in, fresh, path,
  }

  looped-SameValue : (a : ℕ) → SameValue (placed ins a) (looped ins a)
  looped-SameValue a =
      SameValue-trans (placed ins a) (linked_nodes ins a) (looped ins a)
        (link_levels-SameValue level 0 (up ins).1 x (placed ins) a)
        (bump_levels-SameValue (top ins - level) level (up ins).1 (linked_nodes ins) a)

  placed-SameValue : (a : ℕ) → x ≢ a → SameValue (sl.nodes a) (placed ins a)
  placed-SameValue a ne =
      subst (λ n. SameValue (sl.nodes a) n) (sym (placed-else ins a ne))
        (raise_levels-SameValue (level - sl.level) sl.level sl sl.nodes found a)

  final-value :
      (a : ℕ)
      → ((final ins a).obj ≡ (placed ins a).obj) × ((final ins a).score ≡ (placed ins a).score)
  final-value a = at_behind behind refl
    where
      once :
          ((backed ins a).obj ≡ (placed ins a).obj) × ((backed ins a).score ≡ (placed ins a).score)
      once =
          let k = kept_value (looped ins) x (back ins) a in
          let l = looped-SameValue a in (k.0 ∙ l.same_obj, k.1 ∙ l.same_score)

      at_behind :
          (ys : List ℕ)
          → behind ≡ ys
          → ((final ins a).obj ≡ (placed ins a).obj) × ((final ins a).score ≡ (placed ins a).score)
      at_behind [] e = rw e once
      at_behind (y ∷ ys) e =
          let k = kept_value (backed ins) y (some x) a in rw e (k.0 ∙ once.0, k.1 ∙ once.1)

  pub final-old :
      (a : ℕ)
      → x ≢ a
      → ((final ins a).obj ≡ (sl.nodes a).obj) × ((final ins a).score ≡ (sl.nodes a).score)
  final-old a ne =
      let f = final-value a in
      let p = placed-SameValue a ne in (f.0 ∙ p.same_obj, f.1 ∙ p.same_score)

  pub final-new : ((final ins x).obj ≡ some elem.obj) × ((final ins x).score ≡ elem.score)
  final-new =
      let self : (x == x) ≡ true = (==_iff x x).1 refl in
      let f = final-value x in (f.0 ∙ rw self, f.1 ∙ rw self)

  pub elements-old : (ys : List ℕ) → NotIn x ys → elements (final ins) ys ≡ elements sl.nodes ys
  elements-old [] out = refl
  elements-old (b ∷ ys) out = let (o, s) = final-old b out.0 in rw (o, s, elements-old ys out.1)

  pub AllValued-old : (ys : List ℕ) → NotIn x ys → AllValued sl.nodes ys → AllValued (final ins) ys
  AllValued-old [] out t = tt
  AllValued-old (b ∷ ys) out t =
      ((t.0.0, (final-old b out.0).0 ∙ t.0.1), AllValued-old ys out.1 t.1)

  pub element-new : element (final ins x) ≡ elem
  element-new = rw (final-new.0, final-new.1)

  pub unused-kept :
      (j : ℕ) → top ins ≤ j → j < skiplist_maxlevel → ((final ins sl.header).level j).forward ≡ none
  unfolding after
  unused-kept j high in_max =
      let above : ltb j level ≡ false = ground (arith, in_top ins) in
      let above' : ltb j (top ins) ≡ false = ground arith in
      let outside : (leb sl.level j && ltb j (sl.level + (level - sl.level))) ≡ false =
        ground arith in
      ap (λ l. l.forward) (level-final ins sl.header j)
      ∙ rw (above, above', placed-else ins sl.header (λ e. header_ne ins (sym e)))
          (ap (λ l. l.forward)
              (level-raise_levels sl (level - sl.level) sl.level sl.nodes found sl.header j)
            ∙ rw (outside, and_no (sl.header == sl.header)) (sound.unused j (ground arith) in_max))

  -- The pointers backward.
  back_written : (a : ℕ) → x ≢ a → (looped ins a).backward ≡ (sl.nodes a).backward
  back_written a ne = (looped-SameValue a).same_backward ∙ (placed-SameValue a ne).same_backward

  kept_backward :
      (a : ℕ) → x ≢ a → FirstNe behind a → (final ins a).backward ≡ (sl.nodes a).backward
  kept_backward a ne first = at_behind behind refl
    where
      once : (backed ins a).backward ≡ (sl.nodes a).backward
      once = let other : (x == a) ≡ false = ground arith in rw other (back_written a ne)

      at_behind : (ys : List ℕ) → behind ≡ ys → (final ins a).backward ≡ (sl.nodes a).backward
      at_behind [] e = rw e once
      at_behind (y ∷ ys) e =
          let ne' : y ≢ a = subst (λ l. FirstNe l a) e first in
          let other : (y == a) ≡ false = ground arith in rw (e, other) once

  Backed-kept :
      (p : Option ℕ) (ys : List ℕ)
      → NotIn x ys
      → AllFirstNe behind ys
      → Backed sl.nodes p ys
      → Backed (final ins) p ys
  Backed-kept p [] out first b = tt
  Backed-kept p (c ∷ ys) out first b =
      (kept_backward c out.0 first.0 ∙ b.0, Backed-kept (some c) ys out.1 first.1 b.1)

  new-backward : (final ins x).backward ≡ end_of none before
  new-backward =
      at_behind behind refl
      ∙ back-before ins
      ∙ sym (Zip.end_of-onto (towers ins) sl.header before [])
    where
      self : (x == x) ≡ true
      self = (==_iff x x).1 refl

      at_behind : (ys : List ℕ) → behind ≡ ys → (final ins x).backward ≡ back ins
      at_behind [] e = rw (e, self)
      at_behind (y ∷ ys) e =
          let out : NotIn x (y ∷ ys) = subst (NotIn x) e (x-out ins).1 in
          let other : (y == x) ≡ false = ground (arith, out) in rw (e, other, self)

  Backed-behind : Backed (final ins) (some x) behind
  Backed-behind = at_behind behind refl
    where
      at_behind : (ys : List ℕ) → behind ≡ ys → Backed (final ins) (some x) ys
      at_behind [] e = tt
      at_behind (y ∷ ys) e =
          let self : (y == y) ≡ true = (==_iff y y).1 refl in
          let here : (final ins y).backward ≡ some x = rw (e, self) in
          let out : NotIn x (y ∷ ys) = subst (NotIn x) e (x-out ins).1 in
          let apart = subst AllDistinct e (AllDistinct-right before behind sound.distinct.1) in
          let linked =
            subst (Backed sl.nodes (end_of none before)) e
              (Backed-split sl.nodes none before behind sound.backed).1 in
          (
            here,
            Backed-kept (some y) ys out.1
                (subst (λ l. AllFirstNe l ys) (sym e) (AllFirstNe-behind y ys ys apart.0)) linked.1,
          )

  pub final-Backed : Backed (final ins) none (before ++ (x ∷ behind))
  final-Backed =
      Backed-join (final ins) none before (x ∷ behind)
        (Backed-kept none before (NotIn-cut x before behind fresh.1).0
          (AllFirstNe-before behind before sound.distinct.1)
          (Backed-split sl.nodes none before behind sound.backed).0)
        (new-backward, Backed-behind)
