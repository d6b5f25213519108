-- ===== src/SkipList/Splice.antt =====
-- The links around a place, where the nodes before it and those behind it are given.
use rillserver.Prelude.{
  ℕ, ◌+◌, ◌≡◌, ◌≢◌, refl, sym, ◌∙◌, arith, Bool, true, false, ◌||◌, List, [], ◌∷◌, ◌++◌, length,
  ltb, Bool-cases, inl, inr,
}
use rillserver.Prelude.Distinct.{NotIn}
use rillserver.SkipList.Wired.{next_at, last_at, onto}
use rillserver.SkipList.Search.{farther_eq}

module _ (height : ℕ → ℕ) (header : ℕ) where
  -- One of the nodes has level `i`.
  abbrev pub has_tall : ℕ → List ℕ → Bool
  has_tall i [] = false
  has_tall i (b ∷ xs) = ltb i (height b) || has_tall i xs

  pub next_at-tall :
      (i : ℕ) (mid xs ys : List ℕ)
      → has_tall i mid ≡ true
      → next_at height header i (mid ++ xs) ≡ next_at height header i (mid ++ ys)
  next_at-tall i [] xs ys h = absurd (cc)
  next_at-tall i (b ∷ mid) xs ys h = elim (Bool-cases (ltb i (height b))) [
    | inl tall ↦ rw tall
    | inr low ↦ rw (low, next_at-tall i mid xs ys (rw low at h))
  ]

  pub next_at-low :
      (i : ℕ) (mid xs : List ℕ)
      → has_tall i mid ≡ false
      → next_at height header i (mid ++ xs) ≡ record {
        forward = (next_at height header i xs).forward;
        span = length mid + (next_at height header i xs).span;
      }
  next_at-low i [] xs h = farther_eq (next_at height header i xs).forward (omega arith)
  next_at-low i (b ∷ mid) xs h = elim (Bool-cases (ltb i (height b))) [
    | inl tall ↦ let f : true ≡ false = rw tall at h in absurd (cc)
    | inr low ↦
        rw (low, next_at-low i mid xs (rw low at h))
          (farther_eq (next_at height header i xs).forward (omega arith))
  ]

  pub last_at-low :
      (i : ℕ) (mid rs : List ℕ)
      → has_tall i mid ≡ false
      → last_at height header i (onto height header mid rs) ≡ last_at height header i rs
  last_at-low i [] rs h = refl
  last_at-low i (b ∷ mid) rs h = elim (Bool-cases (ltb i (height b))) [
    | inl tall ↦ let f : true ≡ false = rw tall at h in absurd (cc)
    | inr low ↦ last_at-low i mid (b ∷ rs) (rw low at h) ∙ rw low
  ]

  pub last_at-tall :
      (i a : ℕ) (mid rs : List ℕ)
      → has_tall i mid ≡ true
      → NotIn a mid
      → (last_at height header i (onto height header mid rs)).0 ≢ a
  last_at-tall i a [] rs h out = absurd (cc)
  last_at-tall i a (b ∷ mid) rs h out = elim (Bool-cases (has_tall i mid)) [
    | inl later ↦ last_at-tall i a mid (b ∷ rs) later out.1
    | inr only ↦
        let tall : ltb i (height b) ≡ true = ground arith in
        rw (last_at-low i mid (b ∷ rs) only, tall) (λ e. out.0 (sym e))
  ]
