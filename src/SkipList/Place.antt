-- ===== src/SkipList/Place.antt =====
-- Where the search of `slInsert` and `slDelete` stops.
use rillserver.Prelude.{
  ℕ, suc, ◌<◌, ◌≡◌, ap, ◌∙◌, arith, false, Option, some, List, [], ◌∷◌, ◌++◌, length, ◌==◌, ==_iff,
  Bool-cases, inl, inr, length-append,
}
use rillserver.SkipList.{Node, Nodes, SkipList, set_backward, is_before, search_path}
use rillserver.SkipList.Compare.{compare_obj-lex}
use rillserver.SkipList.Wired.{last_at, onto}
use rillserver.SkipList.Search.{Holds, HoldsBack}
use rillserver.SkipList.Path.{search_path-last_at}
use rillserver.SkipList.Order.{Element, element, elements, precedes, AllPrecede, NonePrecede}
use rillserver.SkipList.Inv.{IsSkipList, AllValued}
use rillserver.SkipList.Zip

-- The test of the search is the order of the elements.
is_before-precedes :
    (e : Element) (r : ℕ) (n : Node)
    → (o : List ℕ) × (n.obj ≡ some o)
    → is_before e.score e.obj r n ≡ precedes (element n) e
unfolding is_before
is_before-precedes e r n (o, has) = rw (has, (compare_obj-lex o e.obj).0)

Holds-before :
    (e : Element) (s : Nodes) (r : ℕ) (xs : List ℕ)
    → AllValued s xs
    → NonePrecede (elements s xs) e
    → Holds false (is_before e.score e.obj) s r xs
Holds-before e s r [] t n = tt
Holds-before e s r (b ∷ xs) t n =
    (is_before-precedes e (suc r) (s b) t.0 ∙ n.0, Holds-before e s (suc r) xs t.1 n.1)

HoldsBack-before :
    (height : ℕ → ℕ) (header : ℕ) (e : Element) (s : Nodes) (xs rs : List ℕ)
    → AllValued s xs
    → AllPrecede (elements s xs) e
    → HoldsBack (is_before e.score e.obj) s rs
    → HoldsBack (is_before e.score e.obj) s (onto height header xs rs)
HoldsBack-before height header e s [] rs t p h = h
HoldsBack-before height header e s (b ∷ xs) rs t p h =
    HoldsBack-before height header e s xs (b ∷ rs) t.1 p.1
      (is_before-precedes e (suc (length rs)) (s b) t.0 ∙ p.0, h)

pub AllValued-split :
    (s : Nodes) (xs post : List ℕ) → AllValued s (xs ++ post) → AllValued s xs × AllValued s post
AllValued-split s [] post t = (tt, t)
AllValued-split s (b ∷ xs) post t =
    let (front, back) = AllValued-split s xs post t.1 in ((t.0, front), back)

pub level-set_backward :
    (s : Nodes) (p : ℕ) (o : Option ℕ) (a j : ℕ) → (set_backward s p o a).level j ≡ (s a).level j
level-set_backward s p o a j = elim (Bool-cases (p == a)) [
  | inl e ↦ rw e (ap (λ (q : ℕ). (s q).level j) ((==_iff p a).0 e))
  | inr e ↦ rw e
]

-- The search of an insertion or a deletion, on a sound list.
pub path_of :
    (height : ℕ → ℕ) (sl : SkipList) (before behind : List ℕ) (e : Element) (garbage : ℕ → ℕ × ℕ)
    → IsSkipList height sl (before ++ behind)
    → AllPrecede (elements sl.nodes before) e
    → NonePrecede (elements sl.nodes behind) e
    → (k : ℕ) → k < sl.level
    → search_path (is_before e.score e.obj) sl garbage k
      ≡ last_at height sl.header k (onto height sl.header before [])
path_of height sl before behind e garbage v p n k lt =
    let (w, w') = Zip.zip-wired height sl.header sl.nodes before [] behind v.wired_header v.wired in
    let (t, t') = AllValued-split sl.nodes before behind v.valued in
    let l = Zip.length_onto height sl.header before [] in
    search_path-last_at height (is_before e.score e.obj) sl garbage
      (onto height sl.header before []) behind w w'
      (HoldsBack-before height sl.header e sl.nodes before [] t p tt)
      (Holds-before e sl.nodes _ behind t' n)
      (omega (arith, l, v.count, length-append before behind)) (omega (arith, v.top)) v.level_up k
      lt
