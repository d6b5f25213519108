-- ===== src/Handles/Placing.antt =====
-- `_insert_name_before`: the array with a name more.
use rillserver.Prelude.{
  ℕ, zero, suc, ◌+◌, ◌-◌, ◌<◌, ◌≤◌, ◌≡◌, inl, inr, refl, ap, ap₂, ◌∙◌, arith, true, false, ◌==◌,
  if◌then◌else◌, Bool-cases, ltb, leb, ◌&&◌, ◌∷◌, ◌++◌,
}
use rillserver.Handles.{HandleName}
use rillserver.Handles.Names.{move_up}
use rillserver.Prelude.Ring.{update, tabulate, tabulate_ext}
use rillserver.Handles.Search.{IsSorted, AllBelow, AllAbove}

-- The names from `before` on, one place up, and the new one there.
abbrev pub inserted : ℕ → HandleName → (ℕ → HandleName) → ℕ → HandleName
inserted before new names k =
    if ltb k before then names k else if before == k then new else names (k - 1)

move_up-names :
    (i before : ℕ) (names : ℕ → HandleName) (k : ℕ)
    → move_up i before names k ≡ (if ltb before k && leb k i then names (k - 1) else names k)
unfolding move_up
move_up-names zero before names k =
    let no : (ltb before k && leb k 0) ≡ false = ground arith in rw no
move_up-names (suc i) before names k = elim (Bool-cases (ltb before (suc i))) [
  | inl more ↦
      rw (move_up, more)
        (move_up-names i before (update names (suc i) (names i)) k
          ∙ elim (Bool-cases (suc i == k)) [
            | inl e ↦
                let yes : (ltb before k && leb k (suc i)) ≡ true = ground arith in
                let not_yet : (ltb before k && leb k i) ≡ false = ground arith in
                rw (yes, not_yet, e) (ap names (let p : i ≡ k - 1 = ground arith in p))
            | inr e ↦
                let same : (ltb before k && leb k i) ≡ (ltb before k && leb k (suc i)) =
                  ground arith in
                rw (same, e)
                  (elim (Bool-cases (ltb before k && leb k (suc i))) [
                    | inl h ↦ let other : (suc i == k - 1) ≡ false = ground arith in rw (h, other)
                    | inr h ↦ rw h
                  ])
          ])
  | inr done ↦
      let no : (ltb before k && leb k (suc i)) ≡ false = ground arith in rw (move_up, done, no)
]

pub moved-inserted :
    (count before : ℕ) (new : HandleName) (names : ℕ → HandleName) (k : ℕ)
    → k ≤ count
    → update (move_up count before names) before new k ≡ inserted before new names k
moved-inserted count before new names k le = elim (Bool-cases (before == k)) [
  | inl e ↦ let no : ltb k before ≡ false = ground arith in rw (e, no)
  | inr e ↦ rw e (
      move_up-names count before names k ∙ elim (Bool-cases (ltb k before)) [
        | inl h ↦ let no : (ltb before k && leb k count) ≡ false = ground arith in rw (h, no)
        | inr h ↦ let yes : (ltb before k && leb k count) ≡ true = ground arith in rw (h, yes)
      ])
]

pub copied-inserted :
    (before : ℕ) (new : HandleName) (names : ℕ → HandleName) (k : ℕ)
    → update (λ i. if ltb i before then names i else names (i - 1)) before new k
      ≡ inserted before new names k
copied-inserted before new names k = elim (Bool-cases (before == k)) [
  | inl e ↦ let no : ltb k before ≡ false = ground arith in rw (e, no)
  | inr e ↦ rw e
]

pub tabulate-append :
    (m n : ℕ) (f : ℕ → HandleName)
    → tabulate (m + n) f ≡ tabulate m f ++ tabulate n (λ k. f (m + k))
tabulate-append zero n f =
    ap₂ (λ (x : ℕ) g. tabulate x g) (omega arith) refl
    ∙ tabulate_ext n _ _ (λ k lt. ap f (omega arith))
tabulate-append (suc m) n f =
    ap (λ (x : ℕ). tabulate x f) (let e : suc m + n ≡ suc (m + n) = omega arith in e)
    ∙ ap (λ l. f 0 ∷ l)
        (tabulate-append m n (λ k. f (suc k))
          ∙ ap (λ l. tabulate m (λ k. f (suc k)) ++ l)
              (tabulate_ext n _ _
                (λ k lt. ap f (let e : suc (m + k) ≡ suc m + k = omega arith in e))))

pub inserted-entries :
    (count before : ℕ) (new : HandleName) (names g : ℕ → HandleName)
    → before ≤ count
    → ((k : ℕ) → k ≤ count → g k ≡ inserted before new names k)
    → tabulate (count + 1) g
      ≡ tabulate before names ++ (new ∷ tabulate (count - before) (λ k. names (before + k)))
inserted-entries count before new names g le e =
    ap (λ (x : ℕ). tabulate x g)
      (let p : count + 1 ≡ before + suc (count - before) = omega arith in p)
    ∙ tabulate-append before (suc (count - before)) g
    ∙ ap₂ ◌++◌ (tabulate_ext before _ _ (λ k lt. e k (omega arith) ∙ front k lt)) (
        ap₂ ◌∷◌ (e (before + 0) (omega arith) ∙ at_new)
          (tabulate_ext (count - before) _ _ (λ k lt. e (before + suc k) (omega arith) ∙ back k)))
  where
    front : (k : ℕ) → k < before → inserted before new names k ≡ names k
    front k lt = let yes : ltb k before ≡ true = ground arith in rw yes

    at_new : inserted before new names (before + 0) ≡ new
    at_new =
        let no : ltb (before + 0) before ≡ false = ground arith in
        let self : (before == before + 0) ≡ true = ground arith in rw (no, self)

    back : (k : ℕ) → inserted before new names (before + suc k) ≡ names (before + k)
    back k =
        let no : ltb (before + suc k) before ≡ false = ground arith in
        let other : (before == before + suc k) ≡ false = ground arith in
        rw (no, other) (ap names (let p : before + suc k - 1 ≡ before + k = omega arith in p))

pub inserted-IsSorted :
    (count before : ℕ) (new : HandleName) (names : ℕ → HandleName)
    → IsSorted count names
    → before ≤ count
    → AllBelow before names new.name
    → AllAbove before count names new.name
    → IsSorted (count + 1) (inserted before new names)
inserted-IsSorted count before new names sorted le below above i j lt lt' =
    elim (Bool-cases (ltb i before)) [
      | inl a ↦ elim (Bool-cases (ltb j before)) [
        | inl b ↦ rw (a, b) (sorted i j lt (ground arith))
        | inr b ↦ elim (Bool-cases (before == j)) [
          | inl c ↦ rw (a, b, c) (below i (ground arith))
          | inr c ↦ rw (a, b, c) (sorted i (j - 1) (ground arith) (ground arith))
        ]
      ]
      | inr a ↦
          let b : ltb j before ≡ false = ground arith in
          let c : (before == j) ≡ false = ground arith in
          elim (Bool-cases (before == i)) [
            | inl d ↦ rw (a, b, c, d) (above (j - 1) (ground arith) (ground arith))
            | inr d ↦ rw (a, b, c, d) (sorted (i - 1) (j - 1) (ground arith) (ground arith))
          ]
    ]
