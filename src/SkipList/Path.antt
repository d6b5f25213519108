-- ===== src/SkipList/Path.antt =====
-- The search path: `update[i]` and `rank[i]` of every level.
use rillserver.Prelude.{
  ℕ, zero, suc, ◌+◌, ◌-◌, ◌<◌, ◌≤◌, ◌≡◌, refl, ap, sym, subst, ◌∙◌, arith, Bool, true, false, List,
  [], ◌∷◌, ◌++◌, length, ltb, ◌==◌, ==_iff, Bool-cases, inl, inr, lt→ltb, ltb→lt, append_assoc,
}
use rillserver.Prelude.Ring.{update}
use rillserver.SkipList.{Node, Nodes, SkipList, walk, descend, search_path}
use rillserver.SkipList.Wired.{next_at, WiredAfter, WiredBefore, last_at, onto}
use rillserver.SkipList.Search.{Holds, HoldsBack, walk-last_at, farther_eq}

module _ (height : ℕ → ℕ) (header : ℕ) where
  length-onto : (xs rs : List ℕ) → length (onto height header xs rs) ≡ length xs + length rs
  length-onto [] rs = omega arith
  length-onto (b ∷ xs) rs = omega (arith, length-onto xs (b ∷ rs))

  pub onto-snoc :
      (b : ℕ) (xs rs : List ℕ)
      → onto height header (xs ++ (b ∷ [])) rs ≡ b ∷ onto height header xs rs
  onto-snoc b [] rs = refl
  onto-snoc b (x ∷ xs) rs = onto-snoc b xs (x ∷ rs)

  HoldsBack-onto :
      (go : ℕ → Node → Bool) (s : Nodes) (xs rs : List ℕ)
      → HoldsBack go s (onto height header xs rs)
      → Holds true go s (length rs) xs × HoldsBack go s rs
  HoldsBack-onto go s [] rs h = (tt, h)
  HoldsBack-onto go s (b ∷ xs) rs h =
      let (front, back) = HoldsBack-onto go s xs (b ∷ rs) h in ((back.0, front), back.1)

  -- Node `a`, of rank `r`, is a place from which a search on the levels up to `j` may go on.
  pub record Spot (s : Nodes) (j : ℕ) (rs post : List ℕ) (a r : ℕ) : Type 0 where
    before : List ℕ
    behind : List ℕ
    split : rs ≡ onto height header behind before
    rank : r ≡ length before
    at : (i : ℕ) → i ≤ j → last_at height header i before ≡ (a, r)
    wired : (i : ℕ) → i ≤ j → (s a).level i ≡ next_at height header i (behind ++ post)
    after : WiredAfter height header s (behind ++ post)

  Spot-behind :
      (s : Nodes) (j b a r : ℕ) (rs post : List ℕ)
      → Spot s j rs (b ∷ post) a r
      → Spot s j (b ∷ rs) post a r
  Spot-behind s j b a r rs post p =
      let e : (p.behind ++ (b ∷ [])) ++ post ≡ p.behind ++ (b ∷ post) =
        append_assoc p.behind (b ∷ []) post in
      record {
        before = p.before;
        behind = p.behind ++ (b ∷ []);
        split = ap (λ l. b ∷ l) p.split ∙ sym (onto-snoc b p.behind p.before);
        rank = p.rank;
        at = p.at;
        wired = λ i le. p.wired i le ∙ ap (next_at height header i) (sym e);
        after = subst (WiredAfter height header s) (sym e) p.after;
      }

  module _ (s : Nodes) (j : ℕ) (top : j < height header) where
    pub header-Spot :
        (rs post : List ℕ)
        → WiredBefore height header s rs post
        → WiredAfter height header s post
        → Spot s j rs post header 0
    header-Spot [] post w v = record {
      before = [];
      behind = [];
      split = refl;
      rank = refl;
      at = λ i le. refl;
      wired = λ i le. w i (omega arith);
      after = v;
    }
    header-Spot (b ∷ rs) post w v =
        Spot-behind s j b header 0 rs post (header-Spot rs (b ∷ post) w.1 (w.0, v))

    pub last-Spot :
        (rs post : List ℕ)
        → WiredBefore height header s rs post
        → WiredAfter height header s post
        → Spot s j rs post (last_at height header j rs).0 (last_at height header j rs).1
    last-Spot [] post w v = header-Spot [] post w v
    last-Spot (b ∷ rs) post w v = elim (Bool-cases (ltb j (height b))) [
      | inl tall ↦ rw tall (record {
        before = b ∷ rs;
        behind = [];
        split = refl;
        rank = refl;
        at = λ i le. rw (lt→ltb i (height b) (omega (arith, ltb→lt j (height b) tall)));
        wired = λ i le. w.0 i (omega (arith, ltb→lt j (height b) tall));
        after = v;
      })
      | inr low ↦ rw low (Spot-behind s j b _ _ rs post (last-Spot rs (b ∷ post) w.1 (w.0, v)))
    ]

  module _ (go : ℕ → Node → Bool) (s : Nodes) (fuel : ℕ) (rs post : List ℕ)
      (w : WiredBefore height header s rs post) (v : WiredAfter height header s post)
      (holds : HoldsBack go s rs) (fails : Holds false go s (length rs) post)
      (enough : length rs ≤ fuel) where
    pub walk_from :
        (i j a r : ℕ)
        → i ≤ j
        → Spot s j rs post a r
        → walk go s i fuel a r ≡ last_at height header i rs
    walk_from i j a r le p =
        let h = HoldsBack-onto go s p.behind p.before (subst (HoldsBack go s) p.split holds) in
        walk-last_at height header go s i fuel a r 0 p.before p.behind post (p.at i le)
          (omega (arith, p.rank))
          (p.wired i le
            ∙ farther_eq (next_at height header i (p.behind ++ post)).forward (omega arith))
          p.after h.0 (subst (λ l. Holds false go s (length l) post) p.split fails)
          (omega (arith, length-onto p.behind p.before, ap length p.split))
        ∙ ap (last_at height header i) (sym p.split)

    -- The array of a search has the last node before the place for every level.
    descend-last_at :
        (n j x r : ℕ) (found : ℕ → ℕ × ℕ)
        → n ≤ suc j
        → n ≤ height header
        → Spot s j rs post x r
        → ((k : ℕ) → k < n → descend go s fuel n x r found k ≡ last_at height header k rs)
          × ((k : ℕ) → n ≤ k → descend go s fuel n x r found k ≡ found k)
    unfolding descend
    descend-last_at zero j x r found le top p = ((λ k lt. absurd (omega arith)), λ k le. refl)
    descend-last_at (suc i) j x r found le top p =
        let here : walk go s i fuel x r ≡ last_at height header i rs =
          walk_from i j x r (omega arith) p in
        let found' = update found i (last_at height header i rs) in
        let (inside, outside) =
          descend-last_at i i (last_at height header i rs).0 (last_at height header i rs).1 found'
            (omega arith) (omega arith) (last-Spot s i (omega arith) rs post w v) in
        rw here (
          (λ k lt. elim (Bool-cases (ltb k i)) [
            | inl below ↦ inside k (ltb→lt k i below)
            | inr at_i ↦
                let k_i : i ≡ k = ground arith in
                outside k (omega arith)
                ∙ rw ((==_iff i k).1 k_i) (ap (λ (l : ℕ). last_at height header l rs) k_i)
          ]),
          λ k above.
              let apart : (i == k) ≡ false = ground arith in outside k (omega arith) ∙ rw apart,
        )

-- A search from the header finds on every level the last node before the place, with its rank.
pub search_path-last_at :
    (height : ℕ → ℕ) (go : ℕ → Node → Bool) (sl : SkipList) (garbage : ℕ → ℕ × ℕ) (rs post : List ℕ)
    → WiredBefore height sl.header sl.nodes rs post
    → WiredAfter height sl.header sl.nodes post
    → HoldsBack go sl.nodes rs
    → Holds false go sl.nodes (length rs) post
    → length rs ≤ sl.length
    → sl.level ≤ height sl.header
    → 1 ≤ sl.level
    → (k : ℕ) → k < sl.level
    → search_path go sl garbage k ≡ last_at height sl.header k rs
unfolding search_path
search_path-last_at height go sl garbage rs post w v holds fails enough top level k lt =
    (descend-last_at height sl.header go sl.nodes sl.length rs post w v holds fails enough sl.level
        (sl.level - 1) sl.header 0 garbage (omega arith) top
        (header-Spot height sl.header sl.nodes (sl.level - 1) (omega arith) rs post w v)).0
      k lt
