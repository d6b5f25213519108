-- ===== src/SkipList/Zip.antt =====
-- The nodes before a place with the last one first, against the nodes in order.
use rillserver.Prelude.{
  ℕ, ◌+◌, ◌≤◌, ◌≡◌, ◌≢◌, refl, sym, arith, true, false, Option, none, some, List, [], ◌∷◌, ◌++◌,
  length, ltb, ◌==◌, ==_iff, if◌then◌else◌, Bool-cases, inl, inr,
}
use rillserver.Prelude.Distinct.{NotIn, AllDistinct}
use rillserver.SkipList.{Nodes}
use rillserver.SkipList.Wired.{WiredAfter, WiredBefore, last_at, onto}
use rillserver.SkipList.Join.{DistinctBefore}
use rillserver.SkipList.Order.{
  Element, element, elements, precedes, AllPrecede, NonePrecede, AllFollow, IsSorted, IsNew,
  insert_sorted, precedes_trans, precedes_total,
}
use rillserver.SkipList.Inv.{AllTowers, AllValued, end_of}

module _ (height : ℕ → ℕ) (header : ℕ) where
  pub zip-wired :
      (s : Nodes) (xs rs post : List ℕ)
      → WiredBefore height header s rs (xs ++ post)
      → WiredAfter height header s (xs ++ post)
      → WiredBefore height header s (onto height header xs rs) post
        × WiredAfter height header s post
  zip-wired s [] rs post w w' = (w, w')
  zip-wired s (b ∷ xs) rs post w w' = zip-wired s xs (b ∷ rs) post (w'.0, w) w'.1

  pub unzip-wired :
      (s : Nodes) (xs rs post : List ℕ)
      → WiredBefore height header s (onto height header xs rs) post
      → WiredAfter height header s post
      → WiredBefore height header s rs (xs ++ post) × WiredAfter height header s (xs ++ post)
  unzip-wired s [] rs post w w' = (w, w')
  unzip-wired s (b ∷ xs) rs post w w' =
      let (before, after) = unzip-wired s xs (b ∷ rs) post w w' in (before.1, (before.0, after))

  pub zip-distinct :
      (xs rs post : List ℕ)
      → DistinctBefore header rs (xs ++ post)
      → AllDistinct (xs ++ post)
      → DistinctBefore header (onto height header xs rs) post
  zip-distinct [] rs post d d' = d
  zip-distinct (b ∷ xs) rs post d d' = zip-distinct xs (b ∷ rs) post (d'.0, d) d'.1

  pub NotIn-onto :
      (a : ℕ) (xs rs post : List ℕ)
      → NotIn a rs
      → NotIn a (xs ++ post)
      → NotIn a (onto height header xs rs) × NotIn a post
  NotIn-onto a [] rs post out out' = (out, out')
  NotIn-onto a (b ∷ xs) rs post out out' = NotIn-onto a xs (b ∷ rs) post (out'.0, out) out'.1

  pub AllTowers-onto :
      (top : ℕ) (xs rs post : List ℕ)
      → AllTowers height top rs
      → AllTowers height top (xs ++ post)
      → AllTowers height top (onto height header xs rs) × AllTowers height top post
  AllTowers-onto top [] rs post t t' = (t, t')
  AllTowers-onto top (b ∷ xs) rs post t t' = AllTowers-onto top xs (b ∷ rs) post (t'.0, t) t'.1

  -- the one before the place, NULL being none
  abbrev pub back_of : List ℕ → Option ℕ
  back_of [] = none
  back_of (b ∷ rs) = some b

  pub end_of-onto : (xs rs : List ℕ) → end_of (back_of rs) xs ≡ back_of (onto height header xs rs)
  end_of-onto [] rs = refl
  end_of-onto (b ∷ xs) rs = end_of-onto xs (b ∷ rs)

  -- On the lowest level the last node is the one before the place.
  pub last_at-lowest :
      (top : ℕ) (rs : List ℕ)
      → AllTowers height top rs
      → NotIn header rs
      → ((last_at height header 0 rs).1 ≡ length rs)
        × ((if (last_at height header 0 rs).0 == header
              then none
              else some (last_at height header 0 rs).0)
            ≡ back_of rs)
  last_at-lowest top [] t out = (refl, rw ((==_iff header header).1 refl))
  last_at-lowest top (b ∷ rs) t out =
      let up : ltb 0 (height b) ≡ true = ground arith in
      let other : (b == header) ≡ false = ground arith in rw (up, other) (refl, refl)

  pub last_at-ne :
      (i a : ℕ) (rs : List ℕ) → header ≢ a → NotIn a rs → (last_at height header i rs).0 ≢ a
  last_at-ne i a [] ne out = ne
  last_at-ne i a (b ∷ rs) ne out = elim (Bool-cases (ltb i (height b))) [
    | inl tall ↦ rw tall (λ e. out.0 (sym e))
    | inr low ↦ rw low (last_at-ne i a rs ne out.1)
  ]

  pub length_onto : (xs rs : List ℕ) → length (onto height header xs rs) ≡ length xs + length rs
  length_onto [] rs = omega arith
  length_onto (b ∷ xs) rs = omega (arith, length_onto xs (b ∷ rs))

-- One node more.
module _ (height : ℕ → ℕ) (top x : ℕ) where
  pub AllTowers-insert :
      (xs post : List ℕ)
      → 1 ≤ height x
      → height x ≤ top
      → AllTowers height top (xs ++ post)
      → AllTowers height top (xs ++ (x ∷ post))
  AllTowers-insert [] post up le t = ((up, le), t)
  AllTowers-insert (b ∷ xs) post up le t = (t.0, AllTowers-insert xs post up le t.1)

pub AllValued-insert :
    (s : Nodes) (x : ℕ) (o : List ℕ) (xs post : List ℕ)
    → (s x).obj ≡ some o
    → AllValued s (xs ++ post)
    → AllValued s (xs ++ (x ∷ post))
AllValued-insert s x o [] post e t = ((o, e), t)
AllValued-insert s x o (b ∷ xs) post e t = (t.0, AllValued-insert s x o xs post e t.1)

pub NotIn-insert :
    (a x : ℕ) (xs post : List ℕ) → a ≢ x → NotIn a (xs ++ post) → NotIn a (xs ++ (x ∷ post))
NotIn-insert a x [] post ne out = (ne, out)
NotIn-insert a x (b ∷ xs) post ne out = (out.0, NotIn-insert a x xs post ne out.1)

pub AllDistinct-insert :
    (x : ℕ) (xs post : List ℕ)
    → NotIn x (xs ++ post)
    → AllDistinct (xs ++ post)
    → AllDistinct (xs ++ (x ∷ post))
AllDistinct-insert x [] post out d = (out, d)
AllDistinct-insert x (b ∷ xs) post out d =
    (NotIn-insert b x xs post (λ e. out.0 (sym e)) d.0, AllDistinct-insert x xs post out.1 d.1)

pub length-insert : (x : ℕ) (xs post : List ℕ) → length (xs ++ (x ∷ post)) ≡ length (xs ++ post) + 1
length-insert x [] post = omega arith
length-insert x (b ∷ xs) post = omega (arith, length-insert x xs post)

pub end_of-insert :
    (p : Option ℕ) (x : ℕ) (xs post : List ℕ) → end_of p (xs ++ (x ∷ post)) ≡ end_of (some x) post
end_of-insert p x [] post = refl
end_of-insert p x (b ∷ xs) post = end_of-insert (some b) x xs post

pub elements-insert :
    (s : Nodes) (x : ℕ) (e : Element) (xs post : List ℕ)
    → element (s x) ≡ e
    → AllPrecede (elements s xs) e
    → NonePrecede (elements s post) e
    → elements s (xs ++ (x ∷ post)) ≡ insert_sorted e (elements s (xs ++ post))
elements-insert s x e [] [] el p n = rw el
elements-insert s x e [] (b ∷ post) el p n = rw (el, n.0)
elements-insert s x e (b ∷ xs) post el p n = rw (p.0, elements-insert s x e xs post el p.1 n)

AllFollow-insert :
    (f e : Element) (fs : List Element)
    → precedes f e ≡ true
    → AllFollow f fs
    → AllFollow f (insert_sorted e fs)
AllFollow-insert f e [] h w = (h, tt)
AllFollow-insert f e (g ∷ fs) h w = elim (Bool-cases (precedes g e)) [
  | inl k ↦ rw k (w.0, AllFollow-insert f e fs h w.1)
  | inr k ↦ rw k (h, w)
]

AllFollow-through :
    (e f : Element) (fs : List Element) → precedes e f ≡ true → AllFollow f fs → AllFollow e fs
AllFollow-through e f [] h w = tt
AllFollow-through e f (g ∷ fs) h w = (precedes_trans e f g h w.0, AllFollow-through e f fs h w.1)

-- A new element put in its place keeps the order.
pub insert_sorted-IsSorted :
    (e : Element) (fs : List Element) → IsNew e fs → IsSorted fs → IsSorted (insert_sorted e fs)
insert_sorted-IsSorted e [] n w = (tt, tt)
insert_sorted-IsSorted e (f ∷ fs) n w = elim (Bool-cases (precedes f e)) [
  | inl k ↦ rw k (AllFollow-insert f e fs k w.0, insert_sorted-IsSorted e fs n.1 w.1)
  | inr k ↦
      let first = precedes_total f e k (λ i. n.0 (sym i)) in
      rw k ((first, AllFollow-through e f fs first w.0), w)
]
