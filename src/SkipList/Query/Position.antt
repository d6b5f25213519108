-- ===== src/SkipList/Query/Position.antt =====
-- `slGetRank`: the place of an object among the elements in order, from 1.
use rillserver.Prelude.{
  ℕ, suc, ◌≡◌, ◌≢◌, refl, ap, sym, subst, ◌∙◌, arith, true, false, Option, none, some, List, [],
  ◌∷◌, ◌++◌, length, ltb, Bool-cases, inl, inr,
}
use rillserver.SkipList.{Node, Nodes, SkipList}
use rillserver.SkipList.Compare.{
  compare_obj, equals_obj, is_zero, compare_obj-lex, lex, lex_irrefl, lex_trans,
}
use rillserver.SkipList.Wired.{last_at, onto}
use rillserver.SkipList.Search.{Holds, HoldsBack}
use rillserver.SkipList.Order.{
  Element, element, elements, precedes, bytes_of, AllPrecede, NonePrecede, AllFollow, IsSorted,
  Place-of,
}
use rillserver.SkipList.Inv.{IsSkipList, AllValued}
use rillserver.SkipList.Place.{AllValued-split}
use rillserver.SkipList.Query.{seek, is_up_to, has_obj, rank_of, get_rank}
use rillserver.SkipList.Query.Seek.{seek-first_done}
use rillserver.SkipList.Query.Rank.{seek_here, first_done-none}

-- None of these nodes has the object.
abbrev pub LacksObj : Nodes → List ℕ → List ℕ → Type 0
LacksObj s obj [] = Unit
LacksObj s obj (b ∷ xs) = ((s b).obj ≢ some obj) × LacksObj s obj xs

LacksObj-split :
    (s : Nodes) (obj xs post : List ℕ)
    → LacksObj s obj (xs ++ post)
    → LacksObj s obj xs × LacksObj s obj post
LacksObj-split s obj [] post t = (tt, t)
LacksObj-split s obj (b ∷ xs) post t =
    let (front, back) = LacksObj-split s obj xs post t.1 in ((t.0, front), back)

zero-same : (o obj : List ℕ) → is_zero (compare_obj o obj) ≡ true → o ≡ obj
unfolding equals_obj
zero-same o obj h = (compare_obj-lex o obj).1.0 h

same-zero : (o obj : List ℕ) → o ≡ obj → is_zero (compare_obj o obj) ≡ true
unfolding equals_obj
same-zero o obj e = (compare_obj-lex o obj).1.1 e

-- The test of the search, by the order of the elements.
module _ (e : Element) (r : ℕ) (n : Node) (o : List ℕ) (has : n.obj ≡ some o) where
  up_to-precedes : precedes (element n) e ≡ true → is_up_to e.score e.obj r n ≡ true
  unfolding is_up_to
  up_to-precedes h = rw (has, (compare_obj-lex o e.obj).0) (ground (arith, rw has at h))

  up_to-follows : precedes e (element n) ≡ true → is_up_to e.score e.obj r n ≡ false
  unfolding is_up_to
  up_to-follows h =
      let h' = rw has at h in
      elim (Bool-cases (is_zero (compare_obj o e.obj))) [
        | inl z ↦
            let same = zero-same o e.obj z in
            let no_less : lex e.obj o ≡ false = ap (lex e.obj) same ∙ lex_irrefl e.obj in
            let no_more : lex o e.obj ≡ false = ap (lex o) (sym same) ∙ lex_irrefl o in
            rw (has, (compare_obj-lex o e.obj).0) (ground (arith, h', no_less, no_more))
        | inr z ↦
            rw (has, (compare_obj-lex o e.obj).0, z)
              (ground (arith, lex_trans o e.obj o, lex_irrefl o))
      ]

  up_to-lacks :
      n.obj ≢ some e.obj → precedes (element n) e ≡ false → is_up_to e.score e.obj r n ≡ false
  unfolding is_up_to
  up_to-lacks lacks h = elim (Bool-cases (is_zero (compare_obj o e.obj))) [
    | inl z ↦ absurd (lacks (has ∙ ap some (zero-same o e.obj z)))
    | inr z ↦ let h' = rw has at h in rw (has, (compare_obj-lex o e.obj).0, z) (ground arith)
  ]

  up_to-same : element n ≡ e → is_up_to e.score e.obj r n ≡ true
  unfolding is_up_to
  up_to-same h =
      let same : o ≡ e.obj = sym (ap bytes_of has) ∙ ap (λ f. f.obj) h in
      let score : n.score ≡ e.score = ap (λ f. f.score) h in
      rw (has, same-zero o e.obj same) (ground arith)

-- The order around a node.
follow_at :
    (s : Nodes) (f : Element) (front behind : List ℕ) (here : ℕ)
    → AllFollow f (elements s (front ++ (here ∷ behind)))
    → precedes f (element (s here)) ≡ true
follow_at s f [] behind here w = w.0
follow_at s f (b ∷ front) behind here w = follow_at s f front behind here w.1

pub sorted_around :
    (s : Nodes) (front behind : List ℕ) (here : ℕ)
    → IsSorted (elements s (front ++ (here ∷ behind)))
    → AllPrecede (elements s front) (element (s here))
      × AllFollow (element (s here)) (elements s behind)
sorted_around s [] behind here w = (tt, w.0)
sorted_around s (b ∷ front) behind here w =
    let (before, after) = sorted_around s front behind here w.1 in
    ((follow_at s (element (s b)) front behind here w.0, before), after)

module _ (s : Nodes) (e : Element) where
  up_to-front :
      (height : ℕ → ℕ) (header : ℕ) (xs rs : List ℕ)
      → AllValued s xs
      → AllPrecede (elements s xs) e
      → HoldsBack (is_up_to e.score e.obj) s rs
      → HoldsBack (is_up_to e.score e.obj) s (onto height header xs rs)
  up_to-front height header [] rs v p h = h
  up_to-front height header (b ∷ xs) rs v p h =
      up_to-front height header xs (b ∷ rs) v.1 p.1
        (up_to-precedes e (suc (length rs)) (s b) v.0.0 v.0.1 p.0, h)

  up_to-behind :
      (r : ℕ) (xs : List ℕ)
      → AllValued s xs
      → AllFollow e (elements s xs)
      → Holds false (is_up_to e.score e.obj) s r xs
  up_to-behind r [] v f = tt
  up_to-behind r (b ∷ xs) v f =
      (up_to-follows e (suc r) (s b) v.0.0 v.0.1 f.0, up_to-behind (suc r) xs v.1 f.1)

  up_to-none :
      (r : ℕ) (xs : List ℕ)
      → AllValued s xs
      → NonePrecede (elements s xs) e
      → LacksObj s e.obj xs
      → Holds false (is_up_to e.score e.obj) s r xs
  up_to-none r [] v p l = tt
  up_to-none r (b ∷ xs) v p l =
      (up_to-lacks e (suc r) (s b) v.0.0 v.0.1 l.0 p.0, up_to-none (suc r) xs v.1 p.1 l.1)

has_obj-lacks : (s : Nodes) (obj : List ℕ) (b : ℕ) → (s b).obj ≢ some obj → has_obj s obj b ≡ false
has_obj-lacks s obj b lacks = at_obj (s b).obj refl
  where
    at_obj : (o : Option (List ℕ)) → (s b).obj ≡ o → has_obj s obj b ≡ false
    at_obj none e = rw (has_obj, e)
    at_obj (some o) e = elim (Bool-cases (equals_obj o obj)) [
      | inl same ↦ absurd (lacks (e ∙ ap some ((compare_obj-lex o obj).1.0 same)))
      | inr other ↦ rw (has_obj, e, other)
    ]

-- No last node of a level has the object.
module _ (height : ℕ → ℕ) (header : ℕ) (s : Nodes) (obj : List ℕ)
    (no_obj : (s header).obj ≡ none) where
  last_at-lacks :
      (i : ℕ) (rs : List ℕ)
      → LacksObj s obj rs
      → has_obj s obj (last_at height header i rs).0 ≡ false
  last_at-lacks i [] l = rw (has_obj, no_obj)
  last_at-lacks i (b ∷ rs) l = elim (Bool-cases (ltb i (height b))) [
    | inl tall ↦ rw tall (has_obj-lacks s obj b l.0)
    | inr low ↦ rw low (last_at-lacks i rs l.1)
  ]

  lacks_back :
      (xs rs : List ℕ)
      → LacksObj s obj xs
      → LacksObj s obj rs
      → LacksObj s obj (onto height header xs rs)
  lacks_back [] rs l l' = l'
  lacks_back (b ∷ xs) rs l l' = lacks_back xs (b ∷ rs) l.1 (l.0, l')

-- `slGetRank` on a sound list is the place, counted from 1, of the node with that score and
-- object, if no node before it has the same object.
pub get_rank-position :
    (height : ℕ → ℕ) (sl : SkipList) (front behind : List ℕ) (here : ℕ) (obj : List ℕ)
    → IsSkipList height sl (front ++ (here ∷ behind))
    → (sl.nodes here).obj ≡ some obj
    → LacksObj sl.nodes obj front
    → get_rank sl (sl.nodes here).score obj ≡ suc (length front)
unfolding get_rank
get_rank-position height sl front behind here obj v has lacks =
    let e : Element = record { score = (sl.nodes here).score; obj = obj } in
    let is_e : element (sl.nodes here) ≡ e =
      ap (λ o. record { score = (sl.nodes here).score; obj = bytes_of o }) has in
    let (vf, vb) = AllValued-split sl.nodes front (here ∷ behind) v.valued in
    let (p, f) = sorted_around sl.nodes front behind here v.sorted in
    ap rank_of (
      seek_here height sl front here behind v (is_up_to e.score obj) (λ x r. has_obj sl.nodes obj x)
        (
          up_to-same e _ (sl.nodes here) obj has is_e,
          up_to-front sl.nodes e height sl.header front [] vf
              (subst (AllPrecede (elements sl.nodes front)) is_e p) tt,
        )
        (up_to-behind sl.nodes e (suc (length front)) behind vb.1
          (subst (λ g. AllFollow g (elements sl.nodes behind)) is_e f))
        (rw (has_obj, has) ((compare_obj-lex obj obj).1.1 refl))
        (λ i.
          last_at-lacks height sl.header sl.nodes obj v.no_obj i (onto height sl.header front [])
            (lacks_back height sl.header sl.nodes obj v.no_obj front [] lacks tt)))

-- `slGetRank` on a sound list is 0 if no node has the object.
pub get_rank-absent :
    (height : ℕ → ℕ) (sl : SkipList) (xs : List ℕ) (score : ℕ) (obj : List ℕ)
    → IsSkipList height sl xs
    → LacksObj sl.nodes obj xs
    → get_rank sl score obj ≡ 0
unfolding get_rank
get_rank-absent height sl xs score obj v lacks =
    let e : Element = record { score = score; obj = obj } in
    let p = Place-of sl.nodes xs e v.sorted in
    let v' = subst (IsSkipList height sl) p.cut v in
    let (vf, vb) = AllValued-split sl.nodes p.before p.behind v'.valued in
    let (lf, lb) =
      LacksObj-split sl.nodes obj p.before p.behind (subst (LacksObj sl.nodes obj) p.cut lacks) in
    let found : seek (is_up_to score obj) (λ x r. has_obj sl.nodes obj x) sl.nodes sl.length
          sl.level sl.header 0
        ≡ none =
      seek-first_done height sl p.before p.behind (is_up_to score obj)
        (λ x r. has_obj sl.nodes obj x) v'
        (up_to-front sl.nodes e height sl.header p.before [] vf p.precede tt)
        (up_to-none sl.nodes e (length p.before) p.behind vb p.not_precede lb)
      ∙ first_done-none height sl.header (λ x r. has_obj sl.nodes obj x) sl.level
          (onto height sl.header p.before [])
          (λ i.
            last_at-lacks height sl.header sl.nodes obj v.no_obj i
              (onto height sl.header p.before [])
              (lacks_back height sl.header sl.nodes obj v.no_obj p.before [] lf tt)) in
    ap rank_of found
