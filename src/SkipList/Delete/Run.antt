-- ===== src/SkipList/Delete/Run.antt =====
-- `slDeleteByRank` on sound lists.
use rillserver.Prelude.{
  ℕ, zero, suc, ◌+◌, ◌-◌, ◌<◌, ◌≤◌, ◌≡◌, refl, ap, sym, subst, ◌∙◌, arith, true, false, ◌&&◌,
  Option, List, [], ◌∷◌, ◌++◌, length, ltb, leb, Bool-cases, ◌⊎◌, inl, inr, length-append,
}
use rillserver.SkipList.{SkipList, search_path}
use rillserver.SkipList.Wired.{last_at, onto}
use rillserver.SkipList.Search.{Holds}
use rillserver.SkipList.Path.{search_path-last_at}
use rillserver.SkipList.Order.{elements}
use rillserver.SkipList.Inv.{IsSkipList, last_at-update}
use rillserver.SkipList.Zip
use rillserver.SkipList.Query.Reach.{first, forward-first}
use rillserver.SkipList.Delete.{delete_run, delete_by_rank}
use rillserver.SkipList.Delete.Removal.{Removal, xs, new_top, towers, shrunk}
use rillserver.SkipList.Delete.Removed.{cut_list, cut_list-IsSkipList, elements-kept, final-value}
use rillserver.SkipList.Delete.Gone.{delete_node-cut_list}
use rillserver.SkipList.Delete.DeleteLaw.{next_found}
use rillserver.SkipList.Delete.Ranks.{
  without_ranks, objs_of_ranks, Front-of, without_ranks-front, objs_of_ranks-front, beyond_ranks,
  front_holds, Front-fails,
}

-- What the deletion of some nodes must come to: `ys` are the others.
pub record Keeps (sl : SkipList) (ys : List ℕ) (objs : List (Option (List ℕ)))
    (result : SkipList × List (Option (List ℕ))) : Type 0 where
  pub heights : ℕ → ℕ
  pub sound_after : IsSkipList heights result.0 ys
  pub elements_after : elements result.0.nodes ys ≡ elements sl.nodes ys
  pub objs_removed : result.1 ≡ objs

onto-same :
    (height height' : ℕ → ℕ) (header : ℕ) (ys rs : List ℕ)
    → onto height header ys rs ≡ onto height' header ys rs
onto-same height height' header [] rs = refl
onto-same height height' header (b ∷ ys) rs = onto-same height height' header ys (b ∷ rs)

module _ (rem : Removal) where
  open rem use {height, sl, before, x, behind, sound, found, path}

  objs-kept :
      (start last r : ℕ) (ys : List ℕ)
      → objs_of_ranks (cut_list rem).nodes start last r ys ≡ objs_of_ranks sl.nodes start last r ys
  objs-kept start last r [] = refl
  objs-kept start last r (b ∷ ys) = rw ((final-value rem b).0, objs-kept start last (suc r) ys)

  -- The array of the search serves for the list without the node.
  path-kept :
      (k : ℕ)
      → k < new_top rem
      → found k ≡ last_at (towers rem) sl.header k (onto (towers rem) sl.header before [])
  path-kept k lt =
      let out =
        (Zip.NotIn-onto height sl.header sl.header before [] (x ∷ behind) tt sound.distinct.0).0 in
      path k (omega (arith, lt, (shrunk rem).at_most))
      ∙ sym (
          last_at-update height sl.header sl.header (new_top rem) k
            (onto height sl.header before []) out)
      ∙ ap (last_at (towers rem) sl.header k) (onto-same height (towers rem) sl.header before [])

nothing_run :
    (height : ℕ → ℕ) (sl : SkipList) (before : List ℕ)
    → IsSkipList height sl (before ++ [])
    → Keeps sl (before ++ []) [] (sl, [])
nothing_run height sl before v = record {
  heights = height;
  sound_after = v;
  elements_after = refl;
  objs_removed = refl;
}

-- `x->level[0].forward` of a node of the list
next_forward :
    (height : ℕ → ℕ) (sl : SkipList) (before behind : List ℕ) (b : ℕ)
    → IsSkipList height sl (before ++ (b ∷ behind))
    → ((sl.nodes b).level 0).forward ≡ first behind
next_forward height sl before behind b v =
    let (w, w') =
      Zip.zip-wired height sl.header sl.nodes before [] (b ∷ behind) v.wired_header v.wired in
    let towers =
      (Zip.AllTowers-onto height sl.header sl.level before [] (b ∷ behind) tt v.towers).1 in
    ap (λ l. l.forward) (w'.0 0 (omega (arith, towers.0.0)))
    ∙ forward-first height sl.header sl.level behind towers.1

run-Keeps :
    (fuel start last r : ℕ) (height : ℕ → ℕ) (sl : SkipList) (before behind : List ℕ)
    (found : ℕ → ℕ × ℕ)
    → IsSkipList height sl (before ++ behind)
    → ((k : ℕ)
        → k < sl.level
        → found k ≡ last_at height sl.header k (onto height sl.header before []))
    → length behind ≤ fuel
    → (behind ≡ []) ⊎ (start ≤ suc r)
    → Keeps sl
        (before ++ without_ranks start last r behind)
        (objs_of_ranks sl.nodes start last r behind)
        (delete_run fuel found (suc r) last (first behind) sl)
unfolding delete_run
run-Keeps zero start last r height sl before [] found v path le at = nothing_run height sl before v
run-Keeps zero start last r height sl before (b ∷ behind) found v path le at = absurd (omega arith)
run-Keeps (suc fuel) start last r height sl before [] found v path le at =
    nothing_run height sl before v
run-Keeps (suc fuel) start last r height sl before (b ∷ behind) found v path le at =
    elim (Bool-cases (leb (suc r) last)) [
      | inl inside ↦
          let from : leb start (suc r) ≡ true = elim at [
            | inl e ↦ absurd (cc)
            | inr h ↦ ground arith
          ] in
          let rem : Removal = record {
            height = height;
            sl = sl;
            before = before;
            x = b;
            behind = behind;
            sound = v;
            found = found;
            path = path;
          } in
          let count : suc r + 1 ≡ suc (suc r) = omega arith in
          let k =
            run-Keeps fuel start last (suc r) (towers rem) (cut_list rem) before behind found
              (cut_list-IsSkipList rem) (path-kept rem) (omega arith) (inr (ground arith)) in
          rw
            (
              from,
              inside,
              next_forward height sl before behind b v,
              delete_node-cut_list rem,
              count,
            )
            (record {
              heights = k.heights;
              sound_after = k.sound_after;
              elements_after =
                  k.elements_after
                  ∙ elements-kept rem (before ++ without_ranks start last (suc r) behind);
              objs_removed =
                  ap (λ l. (sl.nodes b).obj ∷ l)
                    (k.objs_removed ∙ objs-kept rem start last (suc r) behind);
            })
      | inr outside ↦
          let (all, no_objs) = beyond_ranks start last sl.nodes (suc r) behind (ground arith) in
          let out : (leb start (suc r) && leb (suc r) last) ≡ false = ground arith in
          rw (out, all, no_objs, outside)
            (record {
              heights = height;
              sound_after = v;
              elements_after = refl;
              objs_removed = refl;
            })
    ]

-- `slDeleteByRank` on a sound list removes the nodes whose ranks, from 1, are in the range, both
-- ends included, and passes their objects to the callback in order. The list of the other nodes is
-- sound and they have the elements they had.
pub delete_by_rank-Keeps :
    (height : ℕ → ℕ) (sl : SkipList) (xs : List ℕ) (garbage : ℕ → ℕ × ℕ) (start last : ℕ)
    → IsSkipList height sl xs
    → Keeps sl
        (without_ranks start last 0 xs)
        (objs_of_ranks sl.nodes start last 0 xs)
        (delete_by_rank garbage sl start last)
unfolding delete_by_rank
delete_by_rank-Keeps height sl xs garbage start last v =
    let f = Front-of (start - 1) xs in
    let v' = subst (IsSkipList height sl) f.cut v in
    let (w, w') =
      Zip.zip-wired height sl.header sl.nodes f.before [] f.behind v'.wired_header v'.wired in
    let l = Zip.length_onto height sl.header f.before [] in
    let found = search_path (λ r n. ltb r start) sl garbage in
    let path : (k : ℕ)
        → k < sl.level
        → found k ≡ last_at height sl.header k (onto height sl.header f.before []) =
      search_path-last_at height (λ r n. ltb r start) sl garbage (onto height sl.header f.before [])
        f.behind w w'
        (front_holds start last sl.nodes (onto height sl.header f.before [])
          (omega (arith, l, f.short)))
        (subst (λ k. Holds false (λ r n. ltb r start) sl.nodes k f.behind) (omega (arith, l))
          (Front-fails start last sl.nodes xs f))
        (omega (arith, l, v'.count, length-append f.before f.behind)) (omega (arith, v.top))
        v.level_up in
    let towers =
      (Zip.AllTowers-onto height sl.header sl.level f.before [] f.behind tt v'.towers).0 in
    let out = (Zip.NotIn-onto height sl.header sl.header f.before [] f.behind tt v'.distinct.0).0 in
    let rank : (found 0).1 + 1 ≡ suc (length f.before) = omega (
      arith,
      ap (λ (q : ℕ × ℕ). q.1) (path 0 (omega (arith, v.level_up))),
      (Zip.last_at-lowest height sl.header sl.level (onto height sl.header f.before []) towers
          out).0,
      l,
    ) in
    let next =
      next_found height sl f.before f.behind found v' (path 0 (omega (arith, v.level_up))) in
    let kept =
      ap (without_ranks start last 0) f.cut
      ∙ without_ranks-front start last 0 f.before f.behind (omega (arith, f.short)) in
    let gone =
      ap (objs_of_ranks sl.nodes start last 0) f.cut
      ∙ objs_of_ranks-front start last sl.nodes 0 f.before f.behind (omega (arith, f.short)) in
    let at_start : (f.behind ≡ []) ⊎ (start ≤ suc (0 + length f.before)) = elim f.full [
      | inl e ↦ inl e
      | inr e ↦ inr (omega (arith, e))
    ] in
    let count : suc (0 + length f.before) ≡ suc (length f.before) = omega arith in
    rw (rank, next, kept, gone, sym count)
      (run-Keeps sl.length start last (0 + length f.before) height sl f.before f.behind found v'
        path (omega (arith, v'.count, length-append f.before f.behind)) at_start)
