-- ===== src/SkipList/Query/Rank.antt =====
-- `slGetNodeByRank` and `slGetRank`: ranks count the elements in order, from 1.
use rillserver.Prelude.{
  ℕ, zero, suc, ◌-◌, ◌<◌, ◌≤◌, ◌≡◌, refl, ap, sym, subst, ◌∙◌, arith, Bool, true, false, none, some,
  List, [], ◌∷◌, ◌++◌, length, get_elem?, if◌then◌else◌, ltb, leb, ◌==◌, Bool-cases, inl, inr,
  length-append, append_assoc, ltb→lt,
}
use rillserver.SkipList.{Node, Nodes, SkipList}
use rillserver.SkipList.Wired.{last_at, onto}
use rillserver.SkipList.Search.{Holds, HoldsBack}
use rillserver.SkipList.Path.{onto-snoc}
use rillserver.SkipList.Inv.{IsSkipList, AllTowers}
use rillserver.SkipList.Zip.{length_onto}
use rillserver.SkipList.Query.{seek, get_node_by_rank}
use rillserver.SkipList.Query.Seek.{first_done, seek-first_done}

module _ (height : ℕ → ℕ) (header : ℕ) where
  last_at-le : (i : ℕ) (rs : List ℕ) → (last_at height header i rs).1 ≤ length rs
  last_at-le i [] = omega arith
  last_at-le i (b ∷ rs) = elim (Bool-cases (ltb i (height b))) [
    | inl tall ↦ rw tall (omega arith)
    | inr low ↦ rw low (omega (arith, last_at-le i rs))
  ]

module _ (height : ℕ → ℕ) (header : ℕ) (done : ℕ → ℕ → Bool) where
  -- The search ends at the node before the place, where it is the only one that is done.
  first_done-here :
      (b n : ℕ) (rs : List ℕ)
      → 1 ≤ height b
      → 1 ≤ n
      → done b (suc (length rs)) ≡ true
      → ((i : ℕ) → done (last_at height header i rs).0 (last_at height header i rs).1 ≡ false)
      → first_done done (λ i. last_at height header i (b ∷ rs)) n ≡ some (b, suc (length rs))
  first_done-here b zero rs up some_level here others = absurd (omega arith)
  first_done-here b (suc i) rs up some_level here others = elim (Bool-cases (ltb i (height b))) [
    | inl tall ↦ rw (tall, here)
    | inr low ↦ rw (low, others i) (first_done-here b i rs up (ground arith) here others)
  ]

  pub first_done-none :
      (n : ℕ) (rs : List ℕ)
      → ((i : ℕ) → done (last_at height header i rs).0 (last_at height header i rs).1 ≡ false)
      → first_done done (λ i. last_at height header i rs) n ≡ none
  first_done-none zero rs others = refl
  first_done-none (suc i) rs others = rw (others i) (first_done-none i rs others)

tower_of :
    (height : ℕ → ℕ) (top b : ℕ) (front behind : List ℕ)
    → AllTowers height top (front ++ (b ∷ behind))
    → 1 ≤ height b
tower_of height top b [] behind t = t.0.0
tower_of height top b (c ∷ front) behind t = tower_of height top b front behind t.1

-- A list cut at an index.
record Cutting (xs : List ℕ) (k : ℕ) : Type 0 where
  front : List ℕ
  here : ℕ
  behind : List ℕ
  cut : xs ≡ front ++ (here ∷ behind)
  index : length front ≡ k
  elem : get_elem? xs k ≡ some here

cutting : (xs : List ℕ) (k : ℕ) → k < length xs → Cutting xs k
cutting [] k lt = absurd (omega arith)
cutting (b ∷ xs) zero lt = record {
  front = [];
  here = b;
  behind = xs;
  cut = refl;
  index = refl;
  elem = refl;
}
cutting (b ∷ xs) (suc k) lt =
    let c = cutting xs k (omega arith) in
    record {
      front = b ∷ c.front;
      here = c.here;
      behind = c.behind;
      cut = ap (λ l. b ∷ l) c.cut;
      index = ap suc c.index;
      elem = c.elem;
    }

pub get_elem?-beyond : (xs : List ℕ) (k : ℕ) → length xs ≤ k → get_elem? xs k ≡ none
get_elem?-beyond [] k le = refl
get_elem?-beyond (b ∷ xs) zero le = absurd (omega arith)
get_elem?-beyond (b ∷ xs) (suc k) le = get_elem?-beyond xs k (omega arith)

module _ (rank : ℕ) (s : Nodes) where
  ranks_hold : (rs : List ℕ) → length rs ≤ rank → HoldsBack (λ r n. leb r rank) s rs
  ranks_hold [] le = tt
  ranks_hold (b ∷ rs) le = (ground arith, ranks_hold rs (omega arith))

  ranks_fail : (r : ℕ) (xs : List ℕ) → rank ≤ r → Holds false (λ r n. leb r rank) s r xs
  ranks_fail r [] le = tt
  ranks_fail r (b ∷ xs) le = (ground arith, ranks_fail (suc r) xs (omega arith))

-- The search on a sound list that ends behind `here`.
module _ (height : ℕ → ℕ) (sl : SkipList) (front : List ℕ) (here : ℕ) (behind : List ℕ)
    (v : IsSkipList height sl (front ++ (here ∷ behind))) (go : ℕ → Node → Bool)
    (done : ℕ → ℕ → Bool) where
  before-here :
      onto height sl.header (front ++ (here ∷ [])) [] ≡ here ∷ onto height sl.header front []
  before-here = onto-snoc height sl.header here front []

  rank_here : suc (length (onto height sl.header front [])) ≡ suc (length front)
  rank_here = omega (arith, length_onto height sl.header front [])

  pub seek_here :
      HoldsBack go sl.nodes (here ∷ onto height sl.header front [])
      → Holds false go sl.nodes (suc (length front)) behind
      → done here (suc (length front)) ≡ true
      → ((i : ℕ)
          → done
              (last_at height sl.header i (onto height sl.header front [])).0
              (last_at height sl.header i (onto height sl.header front [])).1
            ≡ false)
      → seek go done sl.nodes sl.length sl.level sl.header 0 ≡ some (here, suc (length front))
  seek_here holds fails at_here others =
      seek-first_done height sl (front ++ (here ∷ [])) behind go done
        (subst (IsSkipList height sl) (sym (append_assoc front (here ∷ []) behind)) v)
        (subst (HoldsBack go sl.nodes) (sym before-here) holds)
        (subst (λ k. Holds false go sl.nodes k behind)
          (omega (arith, length-append front (here ∷ []))) fails)
      ∙ ap (λ l. first_done done (λ i. last_at height sl.header i l) sl.level) before-here
      ∙ first_done-here height sl.header done here sl.level (onto height sl.header front [])
          (tower_of height sl.level here front behind v.towers) v.level_up
          (subst (λ k. done here k ≡ true) (sym rank_here) at_here) others
      ∙ ap (λ k. some (here, k)) rank_here

-- The search of `slGetNodeByRank`.
module _ (height : ℕ → ℕ) (sl : SkipList) (xs : List ℕ) (k : ℕ) (v : IsSkipList height sl xs)
    (c : Cutting xs k) where
  before_rank :
      (i : ℕ) → ((last_at height sl.header i (onto height sl.header c.front [])).1 == suc k) ≡ false
  before_rank i = ground (
    arith,
    last_at-le height sl.header i (onto height sl.header c.front []),
    length_onto height sl.header c.front [],
    c.index,
  )

  found_here :
      seek (λ r n. leb r (suc k)) (λ x r. r == suc k) sl.nodes sl.length sl.level sl.header 0
      ≡ some (c.here, suc k)
  found_here =
      seek_here height sl c.front c.here c.behind (subst (IsSkipList height sl) c.cut v)
        (λ r n. leb r (suc k)) (λ x r. r == suc k)
        (ranks_hold (suc k) sl.nodes (c.here ∷ onto height sl.header c.front [])
          (omega (arith, length_onto height sl.header c.front [], c.index)))
        (ranks_fail (suc k) sl.nodes (suc (length c.front)) c.behind (omega (arith, c.index)))
        (rw c.index (ground arith)) before_rank
      ∙ ap (λ (l : ℕ). some (c.here, suc l)) c.index

-- `slGetNodeByRank` on a sound list is the element at that place, counted from 1, or none.
pub get_node_by_rank-get_elem :
    (height : ℕ → ℕ) (sl : SkipList) (xs : List ℕ) (rank : ℕ)
    → IsSkipList height sl xs
    → get_node_by_rank sl rank ≡ (if rank == 0 then none else get_elem? xs (rank - 1))
unfolding get_node_by_rank
get_node_by_rank-get_elem height sl xs zero v = refl
get_node_by_rank-get_elem height sl xs (suc k) v = elim (Bool-cases (ltb sl.length (suc k))) [
  | inl beyond ↦
      let no_index : get_elem? xs k ≡ none =
        get_elem?-beyond xs k (omega (arith, v.count, ltb→lt sl.length (suc k) beyond)) in
      let some_rank : (suc k == 0) ≡ false = ground arith in
      let index : suc k - 1 ≡ k = omega arith in rw (beyond, some_rank, index, no_index)
  | inr inside ↦
      let long : k < length xs = ground (arith, v.count) in
      let c = cutting xs k long in
      let some_rank : (suc k == 0) ≡ false = ground arith in
      let index : suc k - 1 ≡ k = omega arith in
      rw (inside, some_rank, index, found_here height sl xs k v c, c.elem)
]
