-- ===== src/SkipList/Growth.antt =====
-- `slInsert` from its record of an insertion to the sound list that it leaves.
use rillserver.Prelude.{
  ℕ, ◌+◌, ◌*◌, ◌%◌, ◌^◌, ◌≤◌, ◌≡◌, refl, ap, sym, subst, ◌∙◌, arith, true, Option, none, some, List,
  [], ◌∷◌, ◌++◌, ltb, Bool-cases, inl, inr,
}
use rillserver.SkipList.{Nodes, SkipList, skiplist_maxlevel, create_node, set_backward, insert_at}
use rillserver.SkipList.Wired.{next_at}
use rillserver.SkipList.Order.{element, elements, AllPrecede, NonePrecede, IsNew, insert_sorted}
use rillserver.SkipList.Inv.{IsSkipList, AllTowers, end_of}
use rillserver.SkipList.Zip
use rillserver.SkipList.Place.{level-set_backward}
use rillserver.SkipList.Placed.{
  Insertion, xs, top, towers, header_ne, towers-header, towers-x, towers-AllTowers, header-out,
  x-out, towers_cut, in_top,
}
use rillserver.SkipList.{finish_insert, random_level}
use rillserver.SkipList.Insert.{looped, back, backed, final, final-wired, level-final, level-looped}
use rillserver.SkipList.Inv.{end_of}
use rillserver.SkipList.Backward.{NotIn-cut}
use rillserver.SkipList.Insert.{new-wired}
use rillserver.SkipList.Inserted.{
  elements-old, AllValued-old, element-new, unused-kept, final-Backed, final-old, final-new,
}
use rillserver.SkipList.Order.{IsSorted}

pub random_level-bounds :
    (draws : List ℕ) → (1 ≤ random_level draws) × (random_level draws ≤ skiplist_maxlevel)
unfolding random_level
random_level-bounds [] = omega arith
random_level-bounds (d ∷ ds) = elim (Bool-cases (ltb (d % 2 ^ 16 * 4) 65535)) [
  | inl e ↦ rw e (omega arith)
  | inr e ↦ rw e (omega arith)
]

elements-split :
    (s : Nodes) (ys zs : List ℕ) → elements s (ys ++ zs) ≡ elements s ys ++ elements s zs
elements-split s [] zs = refl
elements-split s (b ∷ ys) zs = ap (λ l. element (s b) ∷ l) (elements-split s ys zs)

end_of-append :
    (p : Option ℕ) (ys zs : List ℕ) (z : ℕ) → end_of p (ys ++ (z ∷ zs)) ≡ end_of (some z) zs
end_of-append p [] zs z = refl
end_of-append p (b ∷ ys) zs z = end_of-append (some b) ys zs z

finish_end :
    (sl : SkipList) (top : ℕ) (s : Nodes) (x : ℕ)
    → ((s x).level 0).forward ≡ none
    → finish_insert sl top s x
      ≡ record sl { level = top; nodes = s; tail = some x; length = sl.length + 1 }
unfolding finish_insert
finish_end sl top s x f = rw (f, finish_insert)

finish_on :
    (sl : SkipList) (top : ℕ) (s : Nodes) (x y : ℕ)
    → ((s x).level 0).forward ≡ some y
    → finish_insert sl top s x
      ≡ record sl { level = top; nodes = set_backward s y (some x); length = sl.length + 1 }
unfolding finish_insert
finish_on sl top s x y f = rw (f, finish_insert)

module _ (ins : Insertion) where
  open ins use {
    height, sl, before, behind, sound, elem, x, level, found, level_up, level_in, fresh, path,
  }

  abbrev pub grown : SkipList
  grown = record sl {
    level = top ins;
    nodes = final ins;
    tail = end_of none (before ++ (x ∷ behind));
    length = sl.length + 1;
  }

  level-backed : (backed ins x).level 0 ≡ next_at (towers ins) sl.header 0 behind
  level-backed =
      level-set_backward (looped ins) x (back ins) x 0
      ∙ level-looped ins x 0
      ∙ sym (level-final ins x 0)
      ∙ new-wired ins 0 (omega (arith, towers-x ins, level_up))

  pub insert_at-grown :
      insert_at sl found level x (create_node (sl.nodes x) elem.score elem.obj) ≡ grown
  insert_at-grown = at_behind behind refl
    where
      at_behind :
          (ys : List ℕ)
          → behind ≡ ys
          → insert_at sl found level x (create_node (sl.nodes x) elem.score elem.obj) ≡ grown
      at_behind [] e =
          let last : end_of none (before ++ (x ∷ behind)) ≡ some x =
            end_of-append none before behind x ∙ ap (end_of (some x)) e in
          let f : ((backed ins x).level 0).forward ≡ none =
            ap (λ l. l.forward) level-backed
            ∙ ap (λ l. (next_at (towers ins) sl.header 0 l).forward) e in
          unfold insert_at in (finish_end sl (top ins) (backed ins) x f ∙ rw (last, e))
      at_behind (y ∷ ys) e =
          let last : end_of none (before ++ (x ∷ behind)) ≡ sl.tail =
            end_of-append none before behind x
            ∙ ap (end_of (some x)) e
            ∙ sym (
                sound.ends
                ∙ ap (λ l. end_of none (before ++ l)) e
                ∙ end_of-append none before ys y) in
          let tall =
            subst (AllTowers (towers ins) (top ins)) e
              (towers-AllTowers ins behind (header-out ins).1 (x-out ins).1 (towers_cut ins).1) in
          let up : ltb 0 (towers ins y) ≡ true = ground (arith, tall) in
          let f : ((backed ins x).level 0).forward ≡ some y =
            ap (λ l. l.forward) level-backed
            ∙ ap (λ l. (next_at (towers ins) sl.header 0 l).forward) e
            ∙ rw up in
          unfold insert_at in (finish_on sl (top ins) (backed ins) x y f ∙ rw (last, e))

  module _ (precede : AllPrecede (elements sl.nodes before) elem)
      (none_behind : NonePrecede (elements sl.nodes behind) elem)
      (is_new : IsNew elem (elements sl.nodes (xs ins))) where
    pub elements-grown :
        elements (final ins) (before ++ (x ∷ behind))
        ≡ insert_sorted elem (elements sl.nodes (xs ins))
    elements-grown =
        let (out, out') = NotIn-cut x before behind fresh.1 in
        let e = elements-old ins before out in
        let e' = elements-old ins behind out' in
        Zip.elements-insert (final ins) x elem before behind (element-new ins)
          (subst (λ l. AllPrecede l elem) (sym e) precede)
          (subst (λ l. NonePrecede l elem) (sym e') none_behind)
        ∙ ap (insert_sorted elem) (elements-old ins (xs ins) fresh.1)

    pub grown-IsSkipList : IsSkipList (towers ins) grown (before ++ (x ∷ behind))
    grown-IsSkipList = record {
      wired_header = (final-wired ins).0;
      wired = (final-wired ins).1;
      top = towers-header ins;
      unused = unused-kept ins;
      level_up = ground (arith, level_up);
      level_in = ground (arith, level_in, sound.level_in);
      towers =
          Zip.AllTowers-insert (towers ins) (top ins) x before behind
            (omega (arith, towers-x ins, level_up)) (omega (arith, towers-x ins, in_top ins))
            (towers-AllTowers ins (xs ins) sound.distinct.0 fresh.1 sound.towers);
      distinct = (
        Zip.NotIn-insert sl.header x before behind (header_ne ins) sound.distinct.0,
        Zip.AllDistinct-insert x before behind fresh.1 sound.distinct.1,
      );
      count = omega (arith, sound.count, Zip.length-insert x before behind);
      no_obj = (final-old ins sl.header fresh.0).0 ∙ sound.no_obj;
      valued =
          Zip.AllValued-insert (final ins) x elem.obj before behind (final-new ins).0
            (AllValued-old ins (xs ins) fresh.1 sound.valued);
      sorted =
          subst IsSorted (sym elements-grown)
            (Zip.insert_sorted-IsSorted elem (elements sl.nodes (xs ins)) is_new sound.sorted);
      backed = final-Backed ins;
      ends = refl;
    }
