-- ===== src/SkipList/Search.antt =====
-- The searches: where they stop on every level.
use rillserver.Prelude.{
  ℕ, zero, suc, ◌+◌, ◌≤◌, ◌≡◌, refl, ap, sym, ap₂, ◌∙◌, arith, Bool, true, false, Option, none,
  some, List, [], ◌∷◌, ◌++◌, length, ltb, Bool-cases, inl, inr, ltb→lt,
}
use rillserver.SkipList.{Level, Node, Nodes, walk}
use rillserver.SkipList.Wired.{next_at, WiredAfter, last_at, onto}

-- The test has one value at all the nodes behind rank `r`.
abbrev pub Holds : Bool → (ℕ → Node → Bool) → Nodes → ℕ → List ℕ → Type 0
Holds v go s r [] = Unit
Holds v go s r (b ∷ xs) = (go (suc r) (s b) ≡ v) × Holds v go s (suc r) xs

pub farther_eq :
    (f : Option ℕ) {m n : ℕ}
    → m ≡ n
    → ◌≡◌ {A = Level} (record { forward = f; span = m }) (record { forward = f; span = n })
farther_eq f e = ap (λ k. record { forward = f; span = k }) e

-- The same for nodes with the last one first.
abbrev pub HoldsBack : (ℕ → Node → Bool) → Nodes → List ℕ → Type 0
HoldsBack go s [] = Unit
HoldsBack go s (b ∷ rs) = (go (suc (length rs)) (s b) ≡ true) × HoldsBack go s rs

module _ (height : ℕ → ℕ) (header : ℕ) (go : ℕ → Node → Bool) (s : Nodes) where
  moved : (v : Bool) (m n x y : ℕ) → m ≡ n → x ≡ y → go m (s x) ≡ v → go n (s y) ≡ v
  moved v m n x y e e' h = ap₂ (λ k z. go k (s z)) (sym e) (sym e') ∙ h

  -- The next node, where it is behind the place at which the test fails.
  stops :
      (i r : ℕ) (xs : List ℕ) (y : ℕ)
      → Holds false go s r xs
      → (next_at height header i xs).forward ≡ some y
      → go (r + (next_at height header i xs).span) (s y) ≡ false
  stops i r [] y h e = absurd (cc)
  stops i r (b ∷ xs) y h e = elim (Bool-cases (ltb i (height b))) [
    | inl tall ↦ rw tall (moved false (suc r) (r + 1) b y (omega arith) (cc (rw tall at e)) h.0)
    | inr low ↦ rw low (
        moved false (suc r + (next_at height header i xs).span)
          (r + suc (next_at height header i xs).span) y y (omega arith) refl
          (stops i (suc r) xs y h.1 (rw low at e)))
  ]

  -- One round of a walk.
  module _ (i fuel a r : ℕ) where
    walk_end : ((s a).level i).forward ≡ none → walk go s i (suc fuel) a r ≡ (a, r)
    unfolding walk
    walk_end f = rw (f, walk)

    walk_stop :
        (y k : ℕ)
        → ((s a).level i).forward ≡ some y
        → ((s a).level i).span ≡ k
        → go (r + k) (s y) ≡ false
        → walk go s i (suc fuel) a r ≡ (a, r)
    unfolding walk
    walk_stop y k f e g = rw (f, walk) (rw (e, walk) (rw (g, walk)))

    walk_on :
        (y k : ℕ)
        → ((s a).level i).forward ≡ some y
        → ((s a).level i).span ≡ k
        → go (r + k) (s y) ≡ true
        → walk go s i (suc fuel) a r ≡ walk go s i fuel y (r + k)
    unfolding walk
    walk_on y k f e g = rw (f, walk) (rw (e, walk) (rw (g, walk)))

  -- A walk on level `i` ends at the last node of that level before the place.
  pub walk-last_at :
      (i fuel a r d : ℕ) (rs mid post : List ℕ)
      → last_at height header i rs ≡ (a, r)
      → r + d ≡ length rs
      → (s a).level i ≡ record {
        forward = (next_at height header i (mid ++ post)).forward;
        span = d + (next_at height header i (mid ++ post)).span;
      }
      → WiredAfter height header s (mid ++ post)
      → Holds true go s (length rs) mid
      → Holds false go s (length (onto height header mid rs)) post
      → length mid ≤ fuel
      → walk go s i fuel a r ≡ last_at height header i (onto height header mid rs)
  walk-last_at i zero a r d rs [] post at e lev w holds fails le = unfold walk in sym at
  walk-last_at i (suc fuel) a r d rs [] post at e lev w holds fails le =
      at_next (next_at height header i post).forward refl
    where
      at_next :
          (f : Option ℕ)
          → (next_at height header i post).forward ≡ f
          → walk go s i (suc fuel) a r ≡ last_at height header i rs
      at_next none f = walk_end i fuel a r (ap (λ l. l.forward) lev ∙ f) ∙ sym at
      at_next (some y) f =
          walk_stop i fuel a r y (d + (next_at height header i post).span)
            (ap (λ l. l.forward) lev ∙ f) (ap (λ l. l.span) lev)
            (moved false (length rs + (next_at height header i post).span) _ y y (omega (arith, e))
              refl (stops i (length rs) post y fails f))
          ∙ sym at
  walk-last_at i zero a r d rs (b ∷ mid) post at e lev w holds fails le = absurd (omega arith)
  walk-last_at i (suc fuel) a r d rs (b ∷ mid) post at e lev w holds fails le =
      elim (Bool-cases (ltb i (height b))) [
        | inl tall ↦
            let lev' = rw tall at lev in
            walk_on i fuel a r b (d + 1) (ap (λ l. l.forward) lev') (ap (λ l. l.span) lev')
              (moved true (suc (length rs)) _ b b (omega (arith, e)) refl holds.0)
            ∙ walk-last_at i fuel b (r + (d + 1)) 0 (b ∷ rs) mid post
                (rw tall (ap (λ (k : ℕ). (b, k)) (omega (arith, e)))) (omega (arith, e))
                (w.0 i (ltb→lt i (height b) tall)
                  ∙ farther_eq (next_at height header i (mid ++ post)).forward (omega arith))
                w.1 holds.1 fails (omega arith)
        | inr low ↦
            walk-last_at i (suc fuel) a r (suc d) (b ∷ rs) mid post (rw low at) (omega (arith, e))
              ((rw low at lev)
                ∙ farther_eq (next_at height header i (mid ++ post)).forward (omega arith))
              w.1 holds.1 fails (omega arith)
      ]
