-- ===== src/Handles/Naming.antt =====
-- `skynet_handle_findname` and `skynet_handle_namehandle`.
use rillserver.Prelude.{
  ℕ, ◌+◌, ◌<◌, ◌≤◌, ◌≡◌, ◌≢◌, refl, ap, sym, ◌∙◌, arith, true, Option, some, List,
}
use rillserver.SkipList.Compare.{lex, lex_irrefl}
use rillserver.Handles.{HandleName, HandleStorage}
use rillserver.Handles.Names.{Place, search_name, handle_findname}
use native.Mathlib.Decide.{dec_lt}
use rillserver.Handles.Search.{
  IsSorted, AllBelow, AllAbove, Located, here, between, search_name-Located,
}

-- The names are in order, in an array that is large enough.
pub record IsNames (s : HandleStorage) : Type 0 where
  pub sorted : IsSorted s.name_count s.names
  pub fits : s.name_count ≤ s.name_cap
  pub some_cap : 1 ≤ s.name_cap

-- What is found: the handle of the name, or 0.
pub data Finds (s : HandleStorage) (name : List ℕ) : Option ℕ → Type 0 where
  bound :
      (i : ℕ) → i < s.name_count → (s.names i).name ≡ name → Finds s name (some (s.names i).handle)
  unbound : ((i : ℕ) → i < s.name_count → (s.names i).name ≢ name) → Finds s name (some 0)

pub lex-ne : (a b : List ℕ) → lex a b ≡ true → a ≢ b
lex-ne a b l e =
    let no = lex_irrefl b in
    let self : lex b b ≡ true = ap (λ x. lex x b) (sym e) ∙ l in absurd (cc)

-- A name that belongs between two others is not there.
pub between-absent :
    (count : ℕ) (names : ℕ → HandleName) (name : List ℕ) (begin : ℕ)
    → AllBelow begin names name
    → AllAbove begin count names name
    → (i : ℕ) → i < count
    → (names i).name ≢ name
between-absent count names name begin below above i lt e = elim (dec_lt i begin) [
  | yes p ↦ lex-ne (names i).name name (below i p) e
  | no p ↦ lex-ne name (names i).name (above i (omega arith) lt) (sym e)
]

pub located :
    (s : HandleStorage) (name : List ℕ)
    → IsNames s
    → Located s.name_count s.names name (search_name (s.name_count + 1) s.names name 0 s.name_count)
located s name v =
    search_name-Located s.name_count s.names name v.sorted (s.name_count + 1) 0 s.name_count
      (omega arith) (omega arith) (omega arith) (λ k lt. absurd (omega arith))
      (λ k le lt. absurd (omega arith))

-- On sorted names the search finds the handle of a name, and 0 exactly where no entry has the name.
-- The search always comes to an end.
pub handle_findname-Finds :
    (s : HandleStorage) (name : List ℕ) → IsNames s → Finds s name (handle_findname s name)
unfolding handle_findname
handle_findname-Finds s name v = at_place _ refl (located s name v)
  where
    at_place :
        (p : Place)
        → search_name (s.name_count + 1) s.names name 0 s.name_count ≡ p
        → Located s.name_count s.names name p
        → Finds s name (handle_findname s name)
    at_place p e (here mid lt same) = rw (handle_findname, e) (bound mid lt same)
    at_place p e (between begin le below above) =
        rw (handle_findname, e)
          (unbound (between-absent s.name_count s.names name begin below above))
