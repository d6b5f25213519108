-- ===== src/SkipList/Delete/DeleteLaw.antt =====
-- `slDelete` on sound lists.
use rillserver.Prelude.{
  ℕ, ◌<◌, ◌≡◌, refl, ap, ap₂, sym, subst, ◌∙◌, arith, Bool, true, false, ◌&&◌, none, some, List, [],
  ◌∷◌, ◌++◌, ◌==◌, ==_iff, if◌then◌else◌, Bool-cases, inl, inr,
}
use rillserver.SkipList.{Nodes, SkipList, search_path, is_before}
use rillserver.SkipList.Compare.{equals_obj, compare_obj-lex}
use rillserver.SkipList.Wired.{last_at, onto}
use rillserver.SkipList.Join.{last_level}
use rillserver.SkipList.Order.{
  Element, element, elements, bytes_of, precedes, precedes_trans, precedes_irrefl, AllPrecede,
  NonePrecede, AllFollow, IsNew, Place-of,
}
use rillserver.SkipList.Inv.{IsSkipList, AllValued}
use rillserver.SkipList.Place.{path_of, AllValued-split}
use rillserver.SkipList.Zip
use rillserver.SkipList.Query.{has_obj}
use rillserver.SkipList.Query.Reach.{first, forward-first}
use rillserver.SkipList.Query.Position.{sorted_around}
use rillserver.SkipList.Delete.{delete_node, delete}
use rillserver.SkipList.Delete.Removal.{Removal, xs, towers}
use rillserver.SkipList.Delete.Removed.{cut_list, cut_list-IsSkipList, elements-kept}
use rillserver.SkipList.Delete.Gone.{delete_node-cut_list}

-- The node behind the place of a search.
pub next_found :
    (height : ℕ → ℕ) (sl : SkipList) (before behind : List ℕ) (found : ℕ → ℕ × ℕ)
    → IsSkipList height sl (before ++ behind)
    → found 0 ≡ last_at height sl.header 0 (onto height sl.header before [])
    → ((sl.nodes (found 0).0).level 0).forward ≡ first behind
next_found height sl before behind found v path =
    let (w, w') = Zip.zip-wired height sl.header sl.nodes before [] behind v.wired_header v.wired in
    let towers = Zip.AllTowers-onto height sl.header sl.level before [] behind tt v.towers in
    ap (λ (q : ℕ × ℕ). ((sl.nodes q.0).level 0).forward) path
    ∙ ap (λ l. l.forward)
        (last_level height sl.header sl.nodes 0 (onto height sl.header before []) behind
          (omega (arith, v.top, v.level_up)) w).1
    ∙ forward-first height sl.header sl.level behind towers.1

none_follow : (e : Element) (fs : List Element) → AllFollow e fs → NonePrecede fs e
none_follow e [] w = tt
none_follow e (f ∷ fs) w = (
  elim (Bool-cases (precedes f e)) [
    | inl h ↦ cc (precedes_trans e f e w.0 h, precedes_irrefl e)
    | inr h ↦ h
  ],
  none_follow e fs w.1,
)

IsNew-right :
    (s : Nodes) (e : Element) (ys zs : List ℕ)
    → IsNew e (elements s (ys ++ zs))
    → IsNew e (elements s zs)
IsNew-right s e [] zs n = n
IsNew-right s e (b ∷ ys) zs n = IsNew-right s e ys zs n.1

delete-none :
    (garbage : ℕ → ℕ × ℕ) (sl : SkipList) (score : ℕ) (obj : List ℕ)
    → ((sl.nodes (search_path (is_before score obj) sl garbage 0).0).level 0).forward ≡ none
    → delete garbage sl score obj ≡ (sl, false)
unfolding delete
delete-none garbage sl score obj e = rw (e, delete)

delete-some :
    (garbage : ℕ → ℕ × ℕ) (sl : SkipList) (score : ℕ) (obj : List ℕ) (x : ℕ)
    → ((sl.nodes (search_path (is_before score obj) sl garbage 0).0).level 0).forward ≡ some x
    → delete garbage sl score obj ≡ (
        if (score == (sl.nodes x).score) && has_obj sl.nodes obj x
        then (delete_node sl x (search_path (is_before score obj) sl garbage), true)
        else (sl, false))
unfolding delete
delete-some garbage sl score obj x e = rw (e, delete)

-- What a deletion must come to.
pub record Deletes (sl : SkipList) (result : SkipList × Bool) (xs : List ℕ) : Type 0 where
  pub heights : ℕ → ℕ
  pub sound_after : IsSkipList heights result.0 xs
  pub elements_after : elements result.0.nodes xs ≡ elements sl.nodes xs
  pub answer : result.1 ≡ true

-- `slDelete` of the score and the object of a node of a sound list answers 1 and leaves the list of
-- the other nodes sound, on every level with its spans, backward and at the tail, with the elements
-- they had.
pub delete-Deletes :
    (height : ℕ → ℕ) (sl : SkipList) (before : List ℕ) (x : ℕ) (behind : List ℕ)
    (garbage : ℕ → ℕ × ℕ) (obj : List ℕ)
    → IsSkipList height sl (before ++ (x ∷ behind))
    → (sl.nodes x).obj ≡ some obj
    → Deletes sl (delete garbage sl (sl.nodes x).score obj) (before ++ behind)
delete-Deletes height sl before x behind garbage obj v has =
    subst (λ r. Deletes sl r (before ++ behind)) (sym is_cut)
      (record {
        heights = towers rem;
        sound_after = cut_list-IsSkipList rem;
        elements_after = elements-kept rem (before ++ behind);
        answer = refl;
      })
  where
    e : Element
    e = record { score = (sl.nodes x).score; obj = obj }

    is_e : element (sl.nodes x) ≡ e
    is_e = ap (λ o. record { score = (sl.nodes x).score; obj = bytes_of o }) has

    around :
        AllPrecede (elements sl.nodes before) (element (sl.nodes x))
        × AllFollow (element (sl.nodes x)) (elements sl.nodes behind)
    around = sorted_around sl.nodes before behind x v.sorted

    not_precede : NonePrecede (elements sl.nodes (x ∷ behind)) e
    not_precede =
        subst (λ f. NonePrecede (elements sl.nodes (x ∷ behind)) f) is_e
          (
            precedes_irrefl (element (sl.nodes x)),
            none_follow (element (sl.nodes x)) (elements sl.nodes behind) around.1,
          )

    path :
        (k : ℕ)
        → k < sl.level
        → search_path (is_before e.score e.obj) sl garbage k
          ≡ last_at height sl.header k (onto height sl.header before [])
    path =
        path_of height sl before (x ∷ behind) e garbage v
          (subst (AllPrecede (elements sl.nodes before)) is_e around.0) not_precede

    rem : Removal
    rem = record {
      height = height;
      sl = sl;
      before = before;
      x = x;
      behind = behind;
      sound = v;
      found = search_path (is_before e.score e.obj) sl garbage;
      path = path;
    }

    is_cut : delete garbage sl (sl.nodes x).score obj ≡ (cut_list rem, true)
    is_cut =
        let self : ((sl.nodes x).score == (sl.nodes x).score) ≡ true = (==_iff _ _).1 refl in
        let same : has_obj sl.nodes obj x ≡ true =
          rw (has_obj, has) ((compare_obj-lex obj obj).1.1 refl) in
        delete-some garbage sl e.score obj x (
          next_found height sl before (x ∷ behind)
            (search_path (is_before e.score e.obj) sl garbage) v
            (path 0 (omega (arith, v.level_up))))
        ∙ rw (self, same, delete_node-cut_list rem)

same_element :
    (s : Nodes) (y : ℕ) (o : List ℕ) (score : ℕ) (obj : List ℕ)
    → (s y).obj ≡ some o
    → ((score == (s y).score) && has_obj s obj y) ≡ true
    → ◌≡◌ {A = Element} (record { score = score; obj = obj }) (element (s y))
same_element s y o score obj has h =
    let h' = rw (has_obj, has) at h in
    let same_score : (score == (s y).score) ≡ true = ground arith in
    let same_obj : equals_obj o obj ≡ true = ground arith in
    ap₂ (λ n b. record { score = n; obj = b }) ((==_iff score (s y).score).0 same_score)
      (sym ((compare_obj-lex o obj).1.0 same_obj) ∙ sym (ap bytes_of has))

-- `slDelete` of a score and an object that no node of a sound list has together changes nothing and
-- answers 0.
pub delete-absent :
    (height : ℕ → ℕ) (sl : SkipList) (xs : List ℕ) (garbage : ℕ → ℕ × ℕ) (score : ℕ) (obj : List ℕ)
    → IsSkipList height sl xs
    → IsNew (record { score = score; obj = obj }) (elements sl.nodes xs)
    → delete garbage sl score obj ≡ (sl, false)
delete-absent height sl xs garbage score obj v is_new =
    let e : Element = record { score = score; obj = obj } in
    let p = Place-of sl.nodes xs e v.sorted in
    let v' = subst (IsSkipList height sl) p.cut v in
    let path =
      path_of height sl p.before p.behind e garbage v' p.precede p.not_precede 0
        (omega (arith, v.level_up)) in
    let next =
      next_found height sl p.before p.behind (search_path (is_before score obj) sl garbage) v'
        path in
    at_next p.behind next (AllValued-split sl.nodes p.before p.behind v'.valued).1 (
      IsNew-right sl.nodes e p.before p.behind
        (subst (λ l. IsNew e (elements sl.nodes l)) p.cut is_new))
  where
    at_next :
        (ys : List ℕ)
        → ((sl.nodes (search_path (is_before score obj) sl garbage 0).0).level 0).forward ≡ first ys
        → AllValued sl.nodes ys
        → IsNew (record { score = score; obj = obj }) (elements sl.nodes ys)
        → delete garbage sl score obj ≡ (sl, false)
    at_next [] f t n = delete-none garbage sl score obj f
    at_next (y ∷ ys) f t n =
        delete-some garbage sl score obj y f
        ∙ elim (Bool-cases ((score == (sl.nodes y).score) && has_obj sl.nodes obj y)) [
          | inl same ↦ absurd (n.0 (same_element sl.nodes y t.0.0 score obj t.0.1 same))
          | inr other ↦ rw other
        ]
