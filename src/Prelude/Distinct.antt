-- ===== src/Prelude/Distinct.antt =====
-- Lists of numbers without repetition.
use rillserver.Prelude.{ℕ, ◌≢◌, sym, List, [], ◌∷◌, ◌++◌}

abbrev pub NotIn : ℕ → List ℕ → Type 0
NotIn a [] = Unit
NotIn a (b ∷ xs) = (a ≢ b) × NotIn a xs

abbrev pub AllDistinct : List ℕ → Type 0
AllDistinct [] = Unit
AllDistinct (a ∷ xs) = NotIn a xs × AllDistinct xs

pub NotIn-snoc : (b a : ℕ) (xs : List ℕ) → NotIn b xs → b ≢ a → NotIn b (xs ++ (a ∷ []))
NotIn-snoc b a [] out ne = (ne, tt)
NotIn-snoc b a (c ∷ xs) out ne = (out.0, NotIn-snoc b a xs out.1 ne)

pub NotIn-before : (b a : ℕ) (xs : List ℕ) → NotIn b (xs ++ (a ∷ [])) → NotIn b xs × (b ≢ a)
NotIn-before b a [] out = (tt, out.0)
NotIn-before b a (c ∷ xs) out = let (r, ne) = NotIn-before b a xs out.1 in ((out.0, r), ne)

pub AllDistinct-snoc :
    (a : ℕ) (xs : List ℕ) → AllDistinct xs → NotIn a xs → AllDistinct (xs ++ (a ∷ []))
AllDistinct-snoc a [] d out = (tt, tt)
AllDistinct-snoc a (b ∷ xs) d out =
    (NotIn-snoc b a xs d.0 (λ i. out.0 (sym i)), AllDistinct-snoc a xs d.1 out.1)
