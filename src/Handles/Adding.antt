-- ===== src/Handles/Adding.antt =====
-- `skynet_handle_namehandle`: a name more.
use rillserver.Prelude.{
  ℕ, suc, ◌+◌, ◌-◌, ◌*◌, ◌<◌, ◌≤◌, ◌≡◌, ◌≢◌, inl, inr, refl, ap, sym, subst, ◌∙◌, arith, Bool, true,
  false, Option, some, ◌==◌, Bool-cases, ltb, List, ◌∷◌, ◌++◌,
}
use rillserver.SkipList.Compare.{lex}
use rillserver.Handles.{HandleName, HandleStorage}
use rillserver.Handles.Names.{Place, search_name, handle_findname, handle_namehandle, max_slot_size}
use native.Mathlib.Decide.{dec_lt}
use rillserver.Prelude.Ring.{tabulate}
use rillserver.Handles.Retire.{entries}
use rillserver.Handles.Placing.{inserted, inserted-entries, inserted-IsSorted, tabulate-append}
use rillserver.Handles.Search.{AllBelow, AllAbove, Located, here, between}
use rillserver.Handles.Naming.{
  IsNames, Finds, bound, unbound, lex-ne, located, handle_findname-Finds,
}
use rillserver.Handles.Room.{named, Inserts, insert_name_before-Inserts}

-- What the naming of a handle must come to: the name was taken, and nothing changes, or it is new.
pub data Binds (s : HandleStorage) (handle : ℕ) (name : List ℕ)
    : Option (Bool × HandleStorage) → Type 0 where
  taken :
      (i : ℕ) → i < s.name_count → (s.names i).name ≡ name → Binds s handle name (some (false, s))
  added :
      (s' : HandleStorage) (below above : List HandleName)
      → entries s ≡ below ++ above
      → entries s' ≡ below ++ (record { name = name; handle = handle } ∷ above)
      → IsNames s'
      → handle_findname s' name ≡ some handle
      → ((other : List ℕ) → other ≢ name → handle_findname s' other ≡ handle_findname s other)
      → Binds s handle name (some (true, s'))

-- There is one answer to a search.
Finds-unique :
    (s : HandleStorage) (name : List ℕ) (i : ℕ) (o : Option ℕ)
    → IsNames s
    → i < s.name_count
    → (s.names i).name ≡ name
    → Finds s name o
    → o ≡ some (s.names i).handle
Finds-unique s name i o v lt e (bound j lt' e') = elim (dec_lt i j) [
  | yes p ↦ absurd (lex-ne (s.names i).name (s.names j).name (v.sorted i j p lt') (e ∙ sym e'))
  | no p ↦ elim (dec_lt j i) [
    | yes q ↦ absurd (lex-ne (s.names j).name (s.names i).name (v.sorted j i q lt) (e' ∙ sym e))
    | no q ↦ ap (λ (k : ℕ). some (s.names k).handle) (omega arith)
  ]
]
Finds-unique s name i o v lt e (unbound away) = absurd (away i lt e)

Finds-absent :
    (s : HandleStorage) (name : List ℕ) (o : Option ℕ)
    → ((i : ℕ) → i < s.name_count → (s.names i).name ≢ name)
    → Finds s name o
    → o ≡ some 0
Finds-absent s name o away (bound i lt e) = absurd (away i lt e)
Finds-absent s name o away (unbound away') = refl

-- The names after an insertion.
module _ (s : HandleStorage) (name : List ℕ) (handle before : ℕ) (v : IsNames s)
    (le : before ≤ s.name_count) (below : AllBelow before s.names name)
    (above : AllAbove before s.name_count s.names name) (p : Inserts s name handle before) where
  abbrev new : ℕ → HandleName
  new = inserted before (named name handle) s.names

  after-IsNames : IsNames p.after
  after-IsNames = record {
    sorted = λ i j lt lt'.
        let at_i = p.names_after i (omega (arith, p.count_after)) in
        let at_j = p.names_after j (omega (arith, p.count_after)) in
        subst (λ n. lex n.name (p.after.names j).name ≡ true) (sym at_i)
          (subst (λ n. lex (new i).name n.name ≡ true) (sym at_j)
            (inserted-IsSorted s.name_count before (named name handle) s.names v.sorted le below
              above i j lt (omega (arith, p.count_after))));
    fits = p.fits_after;
    some_cap = p.some_cap_after;
  }

  entries-after :
      entries p.after
      ≡ tabulate before s.names
        ++ (named name handle ∷ tabulate (s.name_count - before) (λ k. s.names (before + k)))
  entries-after =
      ap (λ (n : ℕ). tabulate n p.after.names) p.count_after
      ∙ inserted-entries s.name_count before (named name handle) s.names p.after.names le
          p.names_after

  entries-before :
      entries s
      ≡ tabulate before s.names ++ tabulate (s.name_count - before) (λ k. s.names (before + k))
  entries-before =
      ap (λ (n : ℕ). tabulate n s.names)
        (let e : s.name_count ≡ before + (s.name_count - before) = omega arith in e)
      ∙ tabulate-append before (s.name_count - before) s.names

  -- Where an entry of before stands now.
  kept :
      (i : ℕ)
      → i < s.name_count
      → (j : ℕ) × (j < p.after.name_count) × (p.after.names j ≡ s.names i)
  kept i lt = elim (Bool-cases (ltb i before)) [
    | inl h ↦ (i, omega (arith, p.count_after), p.names_after i (omega arith) ∙ rw h)
    | inr h ↦ (
      suc i,
      omega (arith, p.count_after),
      p.names_after (suc i) (omega arith)
          ∙ (let no : ltb (suc i) before ≡ false = ground arith in
              let other : (before == suc i) ≡ false = ground arith in
              rw (no, other) (ap s.names (let e : suc i - 1 ≡ i = omega arith in e))),
    )
  ]

  -- An entry of now is the new one or stood there before.
  came :
      (other : List ℕ)
      → other ≢ name
      → ((i : ℕ) → i < s.name_count → (s.names i).name ≢ other)
      → (i : ℕ) → i < p.after.name_count
      → (p.after.names i).name ≢ other
  came other ne away i lt e =
      let at_i = p.names_after i (omega (arith, p.count_after)) in
      elim (Bool-cases (ltb i before)) [
        | inl h ↦
            let there : p.after.names i ≡ s.names i = at_i ∙ rw h in
            away i (ground arith) (ap (λ n. n.name) (sym there) ∙ e)
        | inr h ↦ elim (Bool-cases (before == i)) [
          | inl k ↦
              let there : p.after.names i ≡ named name handle = at_i ∙ rw (h, k) in
              ne (sym e ∙ ap (λ n. n.name) there)
          | inr k ↦
              let there : p.after.names i ≡ s.names (i - 1) = at_i ∙ rw (h, k) in
              away (i - 1) (ground (arith, p.count_after)) (ap (λ n. n.name) (sym there) ∙ e)
        ]
      ]

  finds_new : handle_findname p.after name ≡ some handle
  finds_new =
      let at_new : p.after.names before ≡ named name handle =
        p.names_after before le
        ∙ (let no : ltb before before ≡ false = ground arith in
            let self : (before == before) ≡ true = ground arith in rw (no, self)) in
      Finds-unique p.after name before (handle_findname p.after name) after-IsNames
        (omega (arith, p.count_after)) (ap (λ n. n.name) at_new)
        (handle_findname-Finds p.after name after-IsNames)
      ∙ ap (λ n. some n.handle) at_new

  finds_old :
      (other : List ℕ) → other ≢ name → handle_findname p.after other ≡ handle_findname s other
  finds_old other ne = by_finding (handle_findname s other) (handle_findname-Finds s other v)
    where
      by_finding : (o : Option ℕ) → Finds s other o → handle_findname p.after other ≡ o
      by_finding o (bound i lt e) =
          let (j, lt', same) = kept i lt in
          Finds-unique p.after other j (handle_findname p.after other) after-IsNames lt'
            (ap (λ n. n.name) same ∙ e) (handle_findname-Finds p.after other after-IsNames)
          ∙ ap (λ n. some n.handle) same
      by_finding o (unbound away) =
          Finds-absent p.after other (handle_findname p.after other) (came other ne away)
            (handle_findname-Finds p.after other after-IsNames)

-- On sorted names, while the array may be doubled: a name that is there already is refused and
-- nothing changes. A new one is put in its place in the order, and is found with its handle from
-- then on; for every other name the search finds what it found before.
pub handle_namehandle-Binds :
    (s : HandleStorage) (handle : ℕ) (name : List ℕ)
    → IsNames s
    → s.name_cap * 2 ≤ max_slot_size
    → Binds s handle name (handle_namehandle s handle name)
unfolding handle_namehandle
handle_namehandle-Binds s handle name v small = at_place _ refl (located s name v)
  where
    at_place :
        (p : Place)
        → search_name (s.name_count + 1) s.names name 0 s.name_count ≡ p
        → Located s.name_count s.names name p
        → Binds s handle name (handle_namehandle s handle name)
    at_place p e (here mid lt same) = rw (handle_namehandle, e) (taken mid lt same)
    at_place p e (between begin le below above) =
        let i = insert_name_before-Inserts s name handle begin v small in
        let done = i.done in
        rw (handle_namehandle, e, done)
          (added i.after _ _ (entries-before s name handle begin v le below above i)
            (entries-after s name handle begin v le below above i)
            (after-IsNames s name handle begin v le below above i)
            (finds_new s name handle begin v le below above i)
            (finds_old s name handle begin v le below above i))
