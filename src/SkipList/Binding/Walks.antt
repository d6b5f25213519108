-- ===== src/SkipList/Binding/Walks.antt =====
-- The nodes in order and in reverse, one pointer after the other.
use rillserver.Prelude.{ℕ, ◌+◌, ◌≤◌, ◌≡◌, refl, ap, ◌∙◌, arith, Bool, List, [], ◌∷◌, ◌++◌, length}
use rillserver.SkipList.{Nodes}
use rillserver.SkipList.Wired.{WiredAfter}
use rillserver.SkipList.Order.{Element, element, elements, AllFollow, IsSorted}
use rillserver.SkipList.Inv.{AllTowers, Backed, end_of}
use rillserver.SkipList.Query.Reach.{first, forward-first, AllScores}

abbrev pub Forwards : Nodes → List ℕ → Type 0
Forwards s [] = Unit
Forwards s (b ∷ ys) = (((s b).level 0).forward ≡ first ys) × Forwards s ys

abbrev pub Backwards : Nodes → List ℕ → Type 0
Backwards s [] = Unit
Backwards s (b ∷ rs) = ((s b).backward ≡ first rs) × Backwards s rs

-- `xs` turned round in front of `rs`
abbrev pub reversed : List ℕ → List ℕ → List ℕ
reversed [] rs = rs
reversed (b ∷ xs) rs = reversed xs (b ∷ rs)

pub wired-Forwards :
    (height : ℕ → ℕ) (header top : ℕ) (s : Nodes) (ys : List ℕ)
    → AllTowers height top ys
    → WiredAfter height header s ys
    → Forwards s ys
wired-Forwards height header top s [] t w = tt
wired-Forwards height header top s (b ∷ ys) t w = (
  ap (λ l. l.forward) (w.0 0 (omega (arith, t.0.0))) ∙ forward-first height header top ys t.1,
  wired-Forwards height header top s ys t.1 w.1,
)

pub Forwards-right : (s : Nodes) (ys zs : List ℕ) → Forwards s (ys ++ zs) → Forwards s zs
Forwards-right s [] zs f = f
Forwards-right s (b ∷ ys) zs f = Forwards-right s ys zs f.1

pub Backed-Backwards :
    (s : Nodes) (xs rs : List ℕ)
    → Backed s (first rs) xs
    → Backwards s rs
    → Backwards s (reversed xs rs)
Backed-Backwards s [] rs b w = w
Backed-Backwards s (c ∷ xs) rs b w = Backed-Backwards s xs (c ∷ rs) b.1 (b.0, w)

pub end_of-reversed : (xs rs : List ℕ) → end_of (first rs) xs ≡ first (reversed xs rs)
end_of-reversed [] rs = refl
end_of-reversed (b ∷ xs) rs = end_of-reversed xs (b ∷ rs)

pub length-reversed : (xs rs : List ℕ) → length (reversed xs rs) ≡ length xs + length rs
length-reversed [] rs = omega arith
length-reversed (b ∷ xs) rs = omega (arith, length-reversed xs (b ∷ rs))

pub reversed-append : (xs ys rs : List ℕ) → reversed (xs ++ ys) rs ≡ reversed ys (reversed xs rs)
reversed-append [] ys rs = refl
reversed-append (b ∷ xs) ys rs = reversed-append xs ys (b ∷ rs)

pub AllScores-reversed :
    (v : Bool) (p : ℕ → Bool) (s : Nodes) (xs rs : List ℕ)
    → AllScores v p s xs
    → AllScores v p s rs
    → AllScores v p s (reversed xs rs)
AllScores-reversed v p s [] rs t t' = t'
AllScores-reversed v p s (b ∷ xs) rs t t' = AllScores-reversed v p s xs (b ∷ rs) t.1 (t.0, t')

-- No score of the list is above that of the node.
abbrev pub AllUpTo : Nodes → ℕ → List ℕ → Type 0
AllUpTo s b [] = Unit
AllUpTo s b (c ∷ rs) = ((s c).score ≤ (s b).score) × AllUpTo s b rs

abbrev pub IsDescending : Nodes → List ℕ → Type 0
IsDescending s [] = Unit
IsDescending s (b ∷ rs) = AllUpTo s b rs × IsDescending s rs

abbrev AllOver : Nodes → List ℕ → List ℕ → Type 0
AllOver s rs [] = Unit
AllOver s rs (b ∷ xs) = AllUpTo s b rs × AllOver s rs xs

over_more :
    (s : Nodes) (b : ℕ) (rs xs : List ℕ)
    → AllFollow (element (s b)) (elements s xs)
    → AllOver s rs xs
    → AllOver s (b ∷ rs) xs
over_more s b rs [] f o = tt
over_more s b rs (c ∷ xs) f o = ((ground (arith, f.0), o.0), over_more s b rs xs f.1 o.1)

over_nil : (s : Nodes) (xs : List ℕ) → AllOver s [] xs
over_nil s [] = tt
over_nil s (b ∷ xs) = (tt, over_nil s xs)

IsDescending-onto :
    (s : Nodes) (xs rs : List ℕ)
    → IsSorted (elements s xs)
    → AllOver s rs xs
    → IsDescending s rs
    → IsDescending s (reversed xs rs)
IsDescending-onto s [] rs w o d = d
IsDescending-onto s (b ∷ xs) rs w o d =
    IsDescending-onto s xs (b ∷ rs) w.1 (over_more s b rs xs w.0 o.1) (o.0, d)

pub reversed-IsDescending :
    (s : Nodes) (xs : List ℕ) → IsSorted (elements s xs) → IsDescending s (reversed xs [])
reversed-IsDescending s xs w = IsDescending-onto s xs [] w (over_nil s xs) tt

pub IsSorted-front :
    (s : Nodes) (xs ys : List ℕ) → IsSorted (elements s (xs ++ ys)) → IsSorted (elements s xs)
IsSorted-front s [] ys w = tt
IsSorted-front s (b ∷ xs) ys w = (follow_front (element (s b)) xs w.0, IsSorted-front s xs ys w.1)
  where
    follow_front :
        (e : Element) (zs : List ℕ)
        → AllFollow e (elements s (zs ++ ys))
        → AllFollow e (elements s zs)
    follow_front e [] f = tt
    follow_front e (c ∷ zs) f = (f.0, follow_front e zs f.1)

pub IsSorted-behind :
    (s : Nodes) (xs ys : List ℕ) → IsSorted (elements s (xs ++ ys)) → IsSorted (elements s ys)
IsSorted-behind s [] ys w = w
IsSorted-behind s (b ∷ xs) ys w = IsSorted-behind s xs ys w.1

pub Backwards-drop : (s : Nodes) (zs rs : List ℕ) → Backwards s (reversed zs rs) → Backwards s rs
Backwards-drop s [] rs w = w
Backwards-drop s (c ∷ zs) rs w = (Backwards-drop s zs (c ∷ rs) w).1
