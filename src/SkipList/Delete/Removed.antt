-- ===== src/SkipList/Delete/Removed.antt =====
-- The list that `slDeleteNode` leaves.
use rillserver.Prelude.{
  ℕ, suc, ◌-◌, ◌≡◌, ◌≢◌, refl, ap, sym, subst, ◌∙◌, arith, true, false, Option, none, some, List,
  [], ◌∷◌, ◌++◌, length, ◌==◌, ==_iff,
}
use rillserver.Prelude.Ring.{update}
use rillserver.Prelude.Distinct.{NotIn, AllDistinct}
use rillserver.SkipList.{Nodes, SkipList}
use rillserver.SkipList.Order.{Element, element, elements, AllFollow, IsSorted}
use rillserver.SkipList.Inv.{IsSkipList, AllTowers, AllValued, Backed, end_of}
use rillserver.SkipList.Fields.{SameValue}
use rillserver.SkipList.Backward.{
  kept_value, FirstNe, AllFirstNe, AllFirstNe-before, AllFirstNe-behind, Backed-split, Backed-join,
  AllDistinct-right,
}
use rillserver.SkipList.Delete.Unlink.{unlink_levels-SameValue}
use rillserver.SkipList.Delete.Removal.{
  Removal, xs, looped, final, new_top, towers, final-wired, wired_after, unused_after,
  towers-header, header_out, bounds, AllTowers-shrunk, shrunk,
}

-- A list without one of its nodes.
module _ (x : ℕ) where
  NotIn-drop : (a : ℕ) (ys zs : List ℕ) → NotIn a (ys ++ (x ∷ zs)) → NotIn a (ys ++ zs)
  NotIn-drop a [] zs out = out.1
  NotIn-drop a (b ∷ ys) zs out = (out.0, NotIn-drop a ys zs out.1)

  AllDistinct-drop : (ys zs : List ℕ) → AllDistinct (ys ++ (x ∷ zs)) → AllDistinct (ys ++ zs)
  AllDistinct-drop [] zs d = d.1
  AllDistinct-drop (b ∷ ys) zs d = (NotIn-drop b ys zs d.0, AllDistinct-drop ys zs d.1)

  AllTowers-drop :
      (height : ℕ → ℕ) (top : ℕ) (ys zs : List ℕ)
      → AllTowers height top (ys ++ (x ∷ zs))
      → AllTowers height top (ys ++ zs)
  AllTowers-drop height top [] zs t = t.1
  AllTowers-drop height top (b ∷ ys) zs t = (t.0, AllTowers-drop height top ys zs t.1)

  AllValued-drop :
      (s : Nodes) (ys zs : List ℕ) → AllValued s (ys ++ (x ∷ zs)) → AllValued s (ys ++ zs)
  AllValued-drop s [] zs t = t.1
  AllValued-drop s (b ∷ ys) zs t = (t.0, AllValued-drop s ys zs t.1)

  AllFollow-drop :
      (s : Nodes) (e : Element) (ys zs : List ℕ)
      → AllFollow e (elements s (ys ++ (x ∷ zs)))
      → AllFollow e (elements s (ys ++ zs))
  AllFollow-drop s e [] zs t = t.1
  AllFollow-drop s e (b ∷ ys) zs t = (t.0, AllFollow-drop s e ys zs t.1)

  IsSorted-drop :
      (s : Nodes) (ys zs : List ℕ)
      → IsSorted (elements s (ys ++ (x ∷ zs)))
      → IsSorted (elements s (ys ++ zs))
  IsSorted-drop s [] zs t = t.1
  IsSorted-drop s (b ∷ ys) zs t =
      (AllFollow-drop s (element (s b)) ys zs t.0, IsSorted-drop s ys zs t.1)

  length-drop : (ys zs : List ℕ) → length (ys ++ (x ∷ zs)) ≡ suc (length (ys ++ zs))
  length-drop [] zs = refl
  length-drop (b ∷ ys) zs = ap suc (length-drop ys zs)

towers-update :
    (height : ℕ → ℕ) (header top v : ℕ) (ys : List ℕ)
    → NotIn header ys
    → AllTowers height top ys
    → AllTowers (update height header v) top ys
towers-update height header top v [] out t = tt
towers-update height header top v (b ∷ ys) out t =
    let other : (header == b) ≡ false = ground arith in
    let same : update height header v b ≡ height b = rw other in
    (
      (omega (arith, same, t.0.0), omega (arith, same, t.0.1)),
      towers-update height header top v ys out.1 t.1,
    )

pub end_of-append :
    (p : Option ℕ) (ys zs : List ℕ) (z : ℕ) → end_of p (ys ++ (z ∷ zs)) ≡ end_of (some z) zs
end_of-append p [] zs z = refl
end_of-append p (b ∷ ys) zs z = end_of-append (some b) ys zs z

pub end_of_nil : (p : Option ℕ) (ys : List ℕ) → end_of p (ys ++ []) ≡ end_of p ys
end_of_nil p [] = refl
end_of_nil p (b ∷ ys) = end_of_nil (some b) ys

module _ (rem : Removal) where
  open rem use {height, sl, before, x, behind, sound, found, path}

  looped-SameValue : (a : ℕ) → SameValue (sl.nodes a) (looped rem a)
  looped-SameValue a = unlink_levels-SameValue sl.level 0 found x sl.nodes a

  pub final-value :
      (a : ℕ) → ((final rem a).obj ≡ (sl.nodes a).obj) × ((final rem a).score ≡ (sl.nodes a).score)
  final-value a = at_behind behind refl
    where
      once : SameValue (sl.nodes a) (looped rem a)
      once = looped-SameValue a

      at_behind :
          (ys : List ℕ)
          → behind ≡ ys
          → ((final rem a).obj ≡ (sl.nodes a).obj) × ((final rem a).score ≡ (sl.nodes a).score)
      at_behind [] e = rw e (once.same_obj, once.same_score)
      at_behind (y ∷ ys) e =
          let k = kept_value (looped rem) y (looped rem x).backward a in
          rw e (k.0 ∙ once.same_obj, k.1 ∙ once.same_score)

  pub elements-kept : (ys : List ℕ) → elements (final rem) ys ≡ elements sl.nodes ys
  elements-kept [] = refl
  elements-kept (b ∷ ys) = let (o, s) = final-value b in rw (o, s, elements-kept ys)

  AllValued-kept : (ys : List ℕ) → AllValued sl.nodes ys → AllValued (final rem) ys
  AllValued-kept [] t = tt
  AllValued-kept (b ∷ ys) t = ((t.0.0, (final-value b).0 ∙ t.0.1), AllValued-kept ys t.1)

  -- The pointers backward.
  kept_backward : (a : ℕ) → FirstNe behind a → (final rem a).backward ≡ (sl.nodes a).backward
  kept_backward a first = at_behind behind refl
    where
      once : (looped rem a).backward ≡ (sl.nodes a).backward
      once = (looped-SameValue a).same_backward

      at_behind : (ys : List ℕ) → behind ≡ ys → (final rem a).backward ≡ (sl.nodes a).backward
      at_behind [] e = rw e once
      at_behind (y ∷ ys) e =
          let ne' : y ≢ a = subst (λ l. FirstNe l a) e first in
          let other : (y == a) ≡ false = ground arith in rw (e, other) once

  Backed-kept :
      (p : Option ℕ) (ys : List ℕ)
      → AllFirstNe behind ys
      → Backed sl.nodes p ys
      → Backed (final rem) p ys
  Backed-kept p [] first b = tt
  Backed-kept p (c ∷ ys) first b =
      (kept_backward c first.0 ∙ b.0, Backed-kept (some c) ys first.1 b.1)

  backward_split : Backed sl.nodes none before × Backed sl.nodes (end_of none before) (x ∷ behind)
  backward_split = Backed-split sl.nodes none before (x ∷ behind) sound.backed

  pub back-before : (looped rem x).backward ≡ end_of none before
  back-before = (looped-SameValue x).same_backward ∙ backward_split.1.0

  Backed-behind : Backed (final rem) (end_of none before) behind
  Backed-behind = at_behind behind refl
    where
      at_behind : (ys : List ℕ) → behind ≡ ys → Backed (final rem) (end_of none before) ys
      at_behind [] e = tt
      at_behind (y ∷ ys) e =
          let self : (y == y) ≡ true = (==_iff y y).1 refl in
          let here : (final rem y).backward ≡ end_of none before = rw (e, self) back-before in
          let apart =
            subst AllDistinct e (AllDistinct-right before (x ∷ behind) sound.distinct.1).1 in
          let linked = subst (Backed sl.nodes (some x)) e backward_split.1.1 in
          (
            here,
            Backed-kept (some y) ys
                (subst (λ l. AllFirstNe l ys) (sym e) (AllFirstNe-behind y ys ys apart.0)) linked.1,
          )

  -- The list without the node.
  abbrev pub cut_list : SkipList
  cut_list = record sl {
    tail = end_of none (xs rem);
    level = new_top rem;
    nodes = final rem;
    length = sl.length - 1;
  }

  pub cut_list-IsSkipList : IsSkipList (towers rem) cut_list (xs rem)
  cut_list-IsSkipList = record {
    wired_header = (wired_after rem).0;
    wired = (wired_after rem).1;
    top = towers-header rem;
    unused = unused_after rem;
    level_up = (bounds rem).0;
    level_in = (bounds rem).1;
    towers = towers-update height sl.header (new_top rem) (new_top rem) (xs rem) (header_out rem) (
        AllTowers-shrunk height sl.header sl.level (new_top rem) (xs rem) (shrunk rem).at_most
          (AllTowers-drop x height sl.level before behind sound.towers)
          (λ lt.
            ap (λ l. l.forward)
              (sym ((final-wired rem).0 (new_top rem) (omega (arith, lt, sound.top))))
            ∙ (shrunk rem).dropped (new_top rem) (omega arith) lt));
    distinct = (header_out rem, AllDistinct-drop x before behind sound.distinct.1);
    count = omega (arith, sound.count, length-drop x before behind);
    no_obj = (final-value sl.header).0 ∙ sound.no_obj;
    valued = AllValued-kept (xs rem) (AllValued-drop x sl.nodes before behind sound.valued);
    sorted =
        subst IsSorted (sym (elements-kept (xs rem)))
          (IsSorted-drop x sl.nodes before behind sound.sorted);
    backed =
        Backed-join (final rem) none before behind
          (Backed-kept none before
            (AllFirstNe-before behind before (AllDistinct-drop x before behind sound.distinct.1))
            backward_split.0)
          Backed-behind;
    ends = refl;
  }
