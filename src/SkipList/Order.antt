-- ===== src/SkipList/Order.antt =====
-- The order of the elements: by score, then by object.
use rillserver.Prelude.{
  ℕ, ◌≡◌, ◌≢◌, refl, ap, ap₂, arith, Bool, true, false, ◌&&◌, ◌||◌, Option, none, some, List, [],
  ◌∷◌, ◌++◌, ltb, ◌==◌, ==_iff, if◌then◌else◌, Bool-cases, inl, inr,
}
use rillserver.SkipList.{Node, Nodes}
use rillserver.SkipList.Compare.{lex, lex_trans, lex_irrefl, lex_total}

pub record Element : Type 0 where
  pub score : ℕ
  pub obj : List ℕ

abbrev pub precedes : Element → Element → Bool
precedes e f = ltb e.score f.score || (e.score == f.score) && lex e.obj f.obj

pub precedes_trans :
    (a b c : Element) → precedes a b ≡ true → precedes b c ≡ true → precedes a c ≡ true
precedes_trans a b c h h' = ground (arith, lex_trans a.obj b.obj c.obj)

pub precedes_irrefl : (a : Element) → precedes a a ≡ false
precedes_irrefl a = ground (arith, lex_irrefl a.obj)

pub precedes_total : (a b : Element) → precedes a b ≡ false → a ≢ b → precedes b a ≡ true
precedes_total a b h ne = elim (Bool-cases (lex b.obj a.obj)) [
  | inl e ↦ ground arith
  | inr e ↦ elim (Bool-cases (lex a.obj b.obj)) [
    | inl e' ↦ ground arith
    | inr e' ↦ elim (Bool-cases (a.score == b.score)) [
      | inl k ↦ absurd (
          ne (
            ap₂ (λ n o. record { score = n; obj = o }) ((==_iff a.score b.score).0 k)
              (lex_total a.obj b.obj e' e)))
      | inr k ↦ ground arith
    ]
  ]
]

-- What a node holds; the header's NULL is read as nothing.
abbrev pub bytes_of : Option (List ℕ) → List ℕ
bytes_of none = []
bytes_of (some o) = o

abbrev pub element : Node → Element
element n = record { score = n.score; obj = bytes_of n.obj }

abbrev pub elements : Nodes → List ℕ → List Element
elements s [] = []
elements s (b ∷ xs) = element (s b) ∷ elements s xs

abbrev pub AllPrecede : List Element → Element → Type 0
AllPrecede [] e = Unit
AllPrecede (f ∷ fs) e = (precedes f e ≡ true) × AllPrecede fs e

abbrev pub NonePrecede : List Element → Element → Type 0
NonePrecede [] e = Unit
NonePrecede (f ∷ fs) e = (precedes f e ≡ false) × NonePrecede fs e

abbrev pub AllFollow : Element → List Element → Type 0
AllFollow e [] = Unit
AllFollow e (f ∷ fs) = (precedes e f ≡ true) × AllFollow e fs

-- Each element precedes all behind it.
abbrev pub IsSorted : List Element → Type 0
IsSorted [] = Unit
IsSorted (e ∷ es) = AllFollow e es × IsSorted es

abbrev pub IsNew : Element → List Element → Type 0
IsNew e [] = Unit
IsNew e (f ∷ fs) = (e ≢ f) × IsNew e fs

-- the specification of an insertion
abbrev pub insert_sorted : Element → List Element → List Element
insert_sorted e [] = e ∷ []
insert_sorted e (f ∷ fs) = if precedes f e then f ∷ insert_sorted e fs else e ∷ f ∷ fs

none_behind :
    (f e : Element) (fs : List Element) → precedes f e ≡ false → AllFollow f fs → NonePrecede fs e
none_behind f e [] no_f w = tt
none_behind f e (g ∷ fs) no_f w = (
  elim (Bool-cases (precedes g e)) [ inl h ↦ cc (precedes_trans f g e w.0 h) | inr h ↦ h ],
  none_behind f e fs no_f w.1,
)

-- The nodes before the place of an element and those behind it.
pub record Place (s : Nodes) (xs : List ℕ) (e : Element) : Type 0 where
  pub before : List ℕ
  pub behind : List ℕ
  pub cut : xs ≡ before ++ behind
  pub precede : AllPrecede (elements s before) e
  pub not_precede : NonePrecede (elements s behind) e

pub Place-of : (s : Nodes) (xs : List ℕ) (e : Element) → IsSorted (elements s xs) → Place s xs e
Place-of s [] e w = record { before = []; behind = []; cut = refl; precede = tt; not_precede = tt }
Place-of s (b ∷ xs) e w = elim (Bool-cases (precedes (element (s b)) e)) [
  | inl first ↦
      let p = Place-of s xs e w.1 in
      record {
        before = b ∷ p.before;
        behind = p.behind;
        cut = ap (λ l. b ∷ l) p.cut;
        precede = (first, p.precede);
        not_precede = p.not_precede;
      }
  | inr stop ↦ record {
    before = [];
    behind = b ∷ xs;
    cut = refl;
    precede = tt;
    not_precede = (stop, none_behind (element (s b)) e (elements s xs) stop w.0);
  }
]
