-- ===== src/Handles/Search.antt =====
-- The binary search for a name.
use rillserver.Prelude.{
  ℕ, zero, suc, ◌+◌, ◌-◌, ◌/◌, ◌<◌, ◌≤◌, ◌≡◌, inl, inr, ap, ◌∙◌, arith, true, Bool-cases, ltb, List,
}
use rillserver.SkipList.Compare.{lex, lex_trans, lex_total}
use rillserver.Handles.{HandleName}
use rillserver.Handles.Names.{strcmp, Place, found, missing, search_name}
use native.Mathlib.Decide.{dec_lt}

-- The names are different, in the order of `strcmp`.
abbrev pub IsSorted : ℕ → (ℕ → HandleName) → Type 0
IsSorted count names = (i j : ℕ) → i < j → j < count → lex (names i).name (names j).name ≡ true

abbrev pub AllBelow : ℕ → (ℕ → HandleName) → List ℕ → Type 0
AllBelow begin names name = (k : ℕ) → k < begin → lex (names k).name name ≡ true

abbrev pub AllAbove : ℕ → ℕ → (ℕ → HandleName) → List ℕ → Type 0
AllAbove stop count names name = (k : ℕ) → stop ≤ k → k < count → lex name (names k).name ≡ true

-- Where a name is, or would be.
pub data Located (count : ℕ) (names : ℕ → HandleName) (name : List ℕ) : Place → Type 0 where
  here : (mid : ℕ) → mid < count → (names mid).name ≡ name → Located count names name (found mid)
  between :
      (begin : ℕ)
      → begin ≤ count
      → AllBelow begin names name
      → AllAbove begin count names name
      → Located count names name (missing begin)

module _ (count : ℕ) (names : ℕ → HandleName) (name : List ℕ) (sorted : IsSorted count names) where
  all_below :
      (mid : ℕ) → mid < count → lex (names mid).name name ≡ true → AllBelow (mid + 1) names name
  all_below mid lt l k le = elim (dec_lt k mid) [
    | yes p ↦ lex_trans (names k).name (names mid).name name (sorted k mid p lt) l
    | no p ↦ ap (λ (x : ℕ). lex (names x).name name) (omega arith) ∙ l
  ]

  all_above : (mid : ℕ) → lex name (names mid).name ≡ true → AllAbove mid count names name
  all_above mid l k le lt = elim (dec_lt mid k) [
    | yes p ↦ lex_trans name (names mid).name (names k).name l (sorted mid k p lt)
    | no p ↦ ap (λ (x : ℕ). lex name (names x).name) (omega arith) ∙ l
  ]

  pub search_name-Located :
      (fuel begin stop : ℕ)
      → begin ≤ stop
      → stop ≤ count
      → stop < begin + fuel
      → AllBelow begin names name
      → AllAbove stop count names name
      → Located count names name (search_name fuel names name begin stop)
  unfolding search_name strcmp
  search_name-Located zero begin stop le fits enough below above = absurd (omega arith)
  search_name-Located (suc fuel) begin stop le fits enough below above =
      elim (Bool-cases (ltb begin stop)) [
        | inr e ↦
            rw (search_name, e)
              (between begin (omega arith) below (λ k up lt. above k (ground arith) lt))
        | inl lt ↦
            let mid = (begin + (stop - 1)) / 2 in
            let up : begin ≤ (begin + (stop - 1)) / 2 = ground arith in
            let down : (begin + (stop - 1)) / 2 < stop = ground arith in
            elim (Bool-cases (lex (names mid).name name)) [
              | inl l ↦
                  rw (search_name, lt, strcmp, l)
                    (search_name-Located fuel (mid + 1) stop (omega arith) fits (omega arith)
                      (all_below mid (omega arith) l) above)
              | inr l ↦ elim (Bool-cases (lex name (names mid).name)) [
                | inl g ↦
                    rw (search_name, lt, strcmp, l, g)
                      (search_name-Located fuel begin mid up (omega arith) (omega arith) below
                        (all_above mid g))
                | inr g ↦
                    rw (search_name, lt, strcmp, l, g)
                      (here mid (omega arith) (lex_total (names mid).name name l g))
              ]
            ]
      ]
