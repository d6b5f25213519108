-- ===== src/SkipList/Query/Seek.antt =====
-- Where a search with an early end ends.
use rillserver.Prelude.{
  ℕ, zero, suc, ◌-◌, ◌≤◌, ◌≡◌, refl, sym, subst, arith, Bool, false, Option, none, some, List, [],
  ◌++◌, length, if◌then◌else◌, length-append,
}
use rillserver.SkipList.{Node, Nodes, SkipList, walk}
use rillserver.SkipList.Wired.{WiredAfter, WiredBefore, last_at, onto}
use rillserver.SkipList.Search.{Holds, HoldsBack}
use rillserver.SkipList.Path.{Spot, walk_from, last-Spot, header-Spot}
use rillserver.SkipList.Inv.{IsSkipList}
use rillserver.SkipList.Zip.{zip-wired, length_onto}
use rillserver.SkipList.Query.{seek}

-- The first of the levels below `n`, from above, whose last node is `done`.
abbrev pub first_done : (ℕ → ℕ → Bool) → (ℕ → ℕ × ℕ) → ℕ → Option (ℕ × ℕ)
first_done done at zero = none
first_done done at (suc i) = if done (at i).0 (at i).1 then some (at i) else first_done done at i

module _ (height : ℕ → ℕ) (header : ℕ) (go : ℕ → Node → Bool) (done : ℕ → ℕ → Bool) (s : Nodes)
    (fuel : ℕ) (rs post : List ℕ) (w : WiredBefore height header s rs post)
    (v : WiredAfter height header s post) (holds : HoldsBack go s rs)
    (fails : Holds false go s (length rs) post) (enough : length rs ≤ fuel) where
  seek-Spot :
      (n j x r : ℕ)
      → n ≤ suc j
      → n ≤ height header
      → Spot height header s j rs post x r
      → seek go done s fuel n x r ≡ first_done done (λ i. last_at height header i rs) n
  unfolding seek
  seek-Spot zero j x r le top p = refl
  seek-Spot (suc i) j x r le top p =
      let here : walk go s i fuel x r ≡ last_at height header i rs =
        walk_from height header go s fuel rs post w v holds fails enough i j x r (omega arith) p in
      rw (
        here,
        seek-Spot i i (last_at height header i rs).0 (last_at height header i rs).1 (omega arith)
            (omega arith) (last-Spot height header s i (omega arith) rs post w v),
      )

-- On a sound list that the test cuts in two.
pub seek-first_done :
    (height : ℕ → ℕ) (sl : SkipList) (before behind : List ℕ) (go : ℕ → Node → Bool)
    (done : ℕ → ℕ → Bool)
    → IsSkipList height sl (before ++ behind)
    → HoldsBack go sl.nodes (onto height sl.header before [])
    → Holds false go sl.nodes (length before) behind
    → seek go done sl.nodes sl.length sl.level sl.header 0
      ≡ first_done done (λ i. last_at height sl.header i (onto height sl.header before [])) sl.level
seek-first_done height sl before behind go done v holds fails =
    let (w, w') = zip-wired height sl.header sl.nodes before [] behind v.wired_header v.wired in
    let l : length (onto height sl.header before []) ≡ length before =
      omega (arith, length_onto height sl.header before []) in
    seek-Spot height sl.header go done sl.nodes sl.length (onto height sl.header before []) behind w
      w' holds (subst (λ k. Holds false go sl.nodes k behind) (sym l) fails)
      (omega (arith, l, v.count, length-append before behind)) sl.level (sl.level - 1) sl.header 0
      (omega (arith, v.level_up)) (omega (arith, v.top))
      (header-Spot height sl.header sl.nodes (sl.level - 1) (omega (arith, v.top, v.level_up))
        (onto height sl.header before []) behind w w')
