-- ===== src/SkipList/Backward.antt =====
-- The pointers backward, and lists without repetition cut in two.
use rillserver.Prelude.{
  ℕ, ◌≡◌, ◌≢◌, refl, ap, sym, Option, some, List, [], ◌∷◌, ◌++◌, ◌==◌, ==_iff, Bool-cases, inl, inr,
}
use rillserver.Prelude.Distinct.{NotIn, AllDistinct}
use rillserver.SkipList.{Nodes, set_backward}
use rillserver.SkipList.Inv.{Backed, end_of}

-- What a write of `backward` keeps.
pub kept_value :
    (s : Nodes) (p : ℕ) (o : Option ℕ) (a : ℕ)
    → ((set_backward s p o a).obj ≡ (s a).obj) × ((set_backward s p o a).score ≡ (s a).score)
kept_value s p o a = elim (Bool-cases (p == a)) [
  | inl e ↦
      rw e (
        ap (λ (q : ℕ). (s q).obj) ((==_iff p a).0 e),
        ap (λ (q : ℕ). (s q).score) ((==_iff p a).0 e),
      )
  | inr e ↦ rw e (refl, refl)
]

-- `a` is not the first of the list.
abbrev pub FirstNe : List ℕ → ℕ → Type 0
FirstNe [] a = Unit
FirstNe (y ∷ ys) a = y ≢ a

abbrev pub AllFirstNe : List ℕ → List ℕ → Type 0
AllFirstNe behind [] = Unit
AllFirstNe behind (b ∷ ys) = FirstNe behind b × AllFirstNe behind ys

pub FirstNe-before :
    (behind : List ℕ) (b : ℕ) (ys : List ℕ) → NotIn b (ys ++ behind) → FirstNe behind b
FirstNe-before [] b [] out = tt
FirstNe-before (y ∷ zs) b [] out = λ e. out.0 (sym e)
FirstNe-before behind b (c ∷ ys) out = FirstNe-before behind b ys out.1

pub AllFirstNe-before : (behind ys : List ℕ) → AllDistinct (ys ++ behind) → AllFirstNe behind ys
AllFirstNe-before behind [] d = tt
AllFirstNe-before behind (b ∷ ys) d =
    (FirstNe-before behind b ys d.0, AllFirstNe-before behind ys d.1)

pub AllFirstNe-behind : (y : ℕ) (zs ys : List ℕ) → NotIn y ys → AllFirstNe (y ∷ zs) ys
AllFirstNe-behind y zs [] out = tt
AllFirstNe-behind y zs (b ∷ ys) out = (out.0, AllFirstNe-behind y zs ys out.1)

pub Backed-split :
    (s : Nodes) (p : Option ℕ) (ys zs : List ℕ)
    → Backed s p (ys ++ zs)
    → Backed s p ys × Backed s (end_of p ys) zs
Backed-split s p [] zs b = (tt, b)
Backed-split s p (c ∷ ys) zs b =
    let (front, back) = Backed-split s (some c) ys zs b.1 in ((b.0, front), back)

pub Backed-join :
    (s : Nodes) (p : Option ℕ) (ys zs : List ℕ)
    → Backed s p ys
    → Backed s (end_of p ys) zs
    → Backed s p (ys ++ zs)
Backed-join s p [] zs b b' = b'
Backed-join s p (c ∷ ys) zs b b' = (b.0, Backed-join s (some c) ys zs b.1 b')

pub AllDistinct-right : (ys zs : List ℕ) → AllDistinct (ys ++ zs) → AllDistinct zs
AllDistinct-right [] zs d = d
AllDistinct-right (b ∷ ys) zs d = AllDistinct-right ys zs d.1

pub NotIn-cut : (a : ℕ) (ys zs : List ℕ) → NotIn a (ys ++ zs) → NotIn a ys × NotIn a zs
NotIn-cut a [] zs out = (tt, out)
NotIn-cut a (b ∷ ys) zs out = let (front, back) = NotIn-cut a ys zs out.1 in ((out.0, front), back)
