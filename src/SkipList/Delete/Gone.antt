-- ===== src/SkipList/Delete/Gone.antt =====
-- `slDeleteNode` on sound lists.
use rillserver.Prelude.{ℕ, ◌-◌, ◌≡◌, refl, ap, sym, ◌∙◌, arith, none, some, List, [], ◌∷◌, ◌++◌}
use rillserver.SkipList.{Nodes, SkipList, set_backward}
use rillserver.SkipList.Inv.{AllTowers, end_of}
use rillserver.SkipList.Zip
use rillserver.SkipList.Query.Reach.{first, forward-first}
use rillserver.SkipList.Delete.{finish_delete, delete_node, shrink}
use rillserver.SkipList.Delete.Removal.{Removal, xs, looped, looped-wired}
use rillserver.SkipList.Delete.Removed.{cut_list, back-before, end_of-append, end_of_nil}

finish_end :
    (sl : SkipList) (s : Nodes) (x : ℕ)
    → ((s x).level 0).forward ≡ none
    → finish_delete sl s x ≡ record sl {
      tail = (s x).backward;
      nodes = s;
      level = shrink (s sl.header).level sl.level;
      length = sl.length - 1;
    }
unfolding finish_delete
finish_end sl s x f = rw (f, finish_delete)

finish_on :
    (sl : SkipList) (s : Nodes) (x y : ℕ)
    → ((s x).level 0).forward ≡ some y
    → finish_delete sl s x ≡ record sl {
      nodes = set_backward s y (s x).backward;
      level = shrink (set_backward s y (s x).backward sl.header).level sl.level;
      length = sl.length - 1;
    }
unfolding finish_delete
finish_on sl s x y f = rw (f, finish_delete)

module _ (rem : Removal) where
  open rem use {height, sl, before, x, behind, sound, found, path}

  towers_behind : AllTowers height sl.level (x ∷ behind)
  towers_behind =
      (Zip.AllTowers-onto height sl.header sl.level before [] (x ∷ behind) tt sound.towers).1

  pub next_looped : ((looped rem x).level 0).forward ≡ first behind
  next_looped =
      ap (λ l. l.forward) ((looped-wired rem).0 0 (omega (arith, towers_behind.0.0)))
      ∙ forward-first height sl.header sl.level behind towers_behind.1

  pub delete_node-cut_list : delete_node sl x found ≡ cut_list rem
  delete_node-cut_list = at_behind behind refl
    where
      at_behind : (ys : List ℕ) → behind ≡ ys → delete_node sl x found ≡ cut_list rem
      at_behind [] e =
          let last : end_of none (xs rem) ≡ (looped rem x).backward =
            ap (λ l. end_of none (before ++ l)) e
            ∙ end_of_nil none before
            ∙ sym (back-before rem) in
          unfold delete_node in
          (finish_end sl (looped rem) x (next_looped ∙ ap first e) ∙ rw (last, e))
      at_behind (y ∷ ys) e =
          let last : end_of none (xs rem) ≡ sl.tail =
            ap (λ l. end_of none (before ++ l)) e
            ∙ end_of-append none before ys y
            ∙ sym (sound.ends ∙ end_of-append none before behind x ∙ ap (end_of (some x)) e) in
          unfold delete_node in
          (finish_on sl (looped rem) x y (next_looped ∙ ap first e) ∙ rw (last, e))
