-- ===== src/Handles/Rehash.antt =====
-- The table of twice the size has the same contexts.
use rillserver.Prelude.{
  some_inj, ℕ, zero, suc, ◌+◌, ◌*◌, ◌%◌, ◌<◌, ◌≡◌, inl, inr, refl, ap, sym, ◌∙◌, arith, true, false,
  Option, none, some, ◌==◌, ==_iff, if◌then◌else◌, Bool-cases, ltb,
}
use rillserver.Prelude.Ring.{update}
use rillserver.Handles.{HandleStorage, returns, rehash, handle_grab}
use rillserver.Handles.Table.{Option-cases}
use native.Mathlib.Nat.{mod-mod_of_dvd, dvd-mul_right}

module _ (handle_of : ℕ → ℕ) (s : HandleStorage) where
  abbrev pub double : ℕ
  double = s.slot_size * 2

  -- What belongs in the slot `j` of the new table.
  abbrev pub moved : ℕ → Option ℕ
  moved j = elim (s.slot (j % s.slot_size)) [
    | none ↦ none
    | some ctx ↦ if handle_of ctx % double == j then some ctx else none
  ]

  pub moved-some :
      (j c : ℕ)
      → s.slot (j % s.slot_size) ≡ some c
      → moved j ≡ (if handle_of c % double == j then some c else none)
  moved-some j c e = rw (moved, e)

  -- The new table after the slots below `i` were moved.
  abbrev pub moved_below : ℕ → ℕ → Option ℕ
  moved_below i j = if ltb (j % s.slot_size) i then moved j else none

  pub mod-double : (x : ℕ) → x % double % s.slot_size ≡ x % s.slot_size
  mod-double x = mod-mod_of_dvd s.slot_size {b = double} x (dvd-mul_right s.slot_size 2)

  pub rehash-moved :
      ((i c : ℕ) → i < s.slot_size → s.slot i ≡ some c → handle_of c % s.slot_size ≡ i)
      → ((i : ℕ) → i < s.slot_size → (c : ℕ) × (s.slot i ≡ some c))
      → (n i : ℕ) (new : ℕ → Option ℕ) → i + n ≡ s.slot_size
      → ((j : ℕ) → new j ≡ moved_below i j)
      → (new' : ℕ → Option ℕ) × (rehash n handle_of s i new ≡ returns new')
        × ((j : ℕ) → new' j ≡ moved_below s.slot_size j)
  unfolding rehash
  rehash-moved placed all zero i new e below =
      (new, refl, λ j. below j ∙ ap (λ (k : ℕ). moved_below k j) (omega (arith, e)))
  rehash-moved placed all (suc n) i new e below =
      let (c, there) = all i (omega (arith, e)) in
      let hash = handle_of c % double in
      let back : hash % s.slot_size ≡ i =
        mod-double (handle_of c) ∙ placed i c (omega (arith, e)) there in
      let later : ltb (hash % s.slot_size) i ≡ false = ground (arith, back) in
      let free : new hash ≡ none = below hash ∙ rw later in
      let (new', done, right) =
        rehash-moved placed all n (i + 1) (update new hash (some c)) (omega (arith, e))
          (next c there back) in
      let all_done : rehash (suc n) handle_of s i new ≡ returns new' =
        rw (rehash, there, free) done in
      (new', all_done, right)
    where
      next :
          (c : ℕ)
          → s.slot i ≡ some c
          → handle_of c % double % s.slot_size ≡ i
          → (j : ℕ) → update new (handle_of c % double) (some c) j ≡ moved_below (i + 1) j
      next c there back j = elim (Bool-cases (handle_of c % double == j)) [
        | inl h ↦
            let same = (==_iff (handle_of c % double) j).0 h in
            let row : j % s.slot_size ≡ i = ap (λ (k : ℕ). k % s.slot_size) (sym same) ∙ back in
            let in_reach : ltb i (i + 1) ≡ true = ground arith in
            let here : s.slot (j % s.slot_size) ≡ some c = ap s.slot row ∙ there in
            rw (h, row, in_reach) (sym (moved-some j c here ∙ rw h))
        | inr h ↦ rw h (
            below j ∙ elim (Bool-cases (j % s.slot_size == i)) [
              | inl k ↦
                  let row = (==_iff (j % s.slot_size) i).0 k in
                  let here : s.slot (j % s.slot_size) ≡ some c = ap s.slot row ∙ there in
                  let not_yet : ltb (j % s.slot_size) i ≡ false = ground (arith, row) in
                  let now : ltb (j % s.slot_size) (i + 1) ≡ true = ground (arith, row) in
                  rw (not_yet, now) (sym (moved-some j c here ∙ rw h))
              | inr k ↦
                  let same : ltb (j % s.slot_size) i ≡ ltb (j % s.slot_size) (i + 1) =
                    ground arith in
                  rw same
            ])
      ]

abbrev pub doubled : HandleStorage → (ℕ → Option ℕ) → HandleStorage
doubled s slots = record s { slot = slots; slot_size = s.slot_size * 2 }

-- A slot of the new table, from the one that it came from.
module _ (handle_of : ℕ → ℕ) (s : HandleStorage) where
  moved-none : (j : ℕ) → s.slot (j % s.slot_size) ≡ none → moved handle_of s j ≡ none
  moved-none j e = rw (moved, e)

  pub moved-there :
      (j c : ℕ)
      → s.slot (j % s.slot_size) ≡ some c
      → (handle_of c % double handle_of s == j) ≡ true
      → moved handle_of s j ≡ some c
  moved-there j c e h = moved-some handle_of s j c e ∙ rw h

  pub moved-elsewhere :
      (j c : ℕ)
      → s.slot (j % s.slot_size) ≡ some c
      → (handle_of c % double handle_of s == j) ≡ false
      → moved handle_of s j ≡ none
  moved-elsewhere j c e h = moved-some handle_of s j c e ∙ rw h

  pub moved_inv :
      (j c : ℕ)
      → moved handle_of s j ≡ some c
      → (s.slot (j % s.slot_size) ≡ some c) × (handle_of c % double handle_of s ≡ j)
  moved_inv j c e = elim (Option-cases (s.slot (j % s.slot_size))) [
    | inl is_none ↦ absurd (let k = moved-none j is_none in cc)
    | inr (c', there) ↦ elim (Bool-cases (handle_of c' % double handle_of s == j)) [
      | inl h ↦
          let k = moved-there j c' there h in
          let same : c' ≡ c = some_inj (sym k ∙ e) in
          (
            there ∙ ap some same,
            ap (λ (x : ℕ). handle_of x % double handle_of s) (sym same) ∙ (==_iff _ j).0 h,
          )
      | inr h ↦ absurd (let k = moved-elsewhere j c' there h in cc)
    ]
  ]

  pub grab-moved :
      (slots : ℕ → Option ℕ)
      → ((j : ℕ) → slots j ≡ moved handle_of s j)
      → (h : ℕ) → handle_grab handle_of (doubled s slots) h ≡ handle_grab handle_of s h
  unfolding handle_grab
  grab-moved slots e h =
      let back = mod-double handle_of s h in
      elim (Option-cases (s.slot (h % s.slot_size))) [
        | inl is_none ↦
            let new : slots (h % double handle_of s) ≡ none =
              e _ ∙ moved-none (h % double handle_of s) (ap s.slot back ∙ is_none) in
            rw (handle_grab, new, is_none)
        | inr (c, there) ↦
            let came = ap s.slot back ∙ there in
            elim (Bool-cases (handle_of c % double handle_of s == h % double handle_of s)) [
              | inl k ↦
                  let new : slots (h % double handle_of s) ≡ some c =
                    e _ ∙ moved-there (h % double handle_of s) c came k in
                  rw (handle_grab, new, there)
              | inr k ↦
                  let new : slots (h % double handle_of s) ≡ none =
                    e _ ∙ moved-elsewhere (h % double handle_of s) c came k in
                  let other : (handle_of c == h) ≡ false = elim (Bool-cases (handle_of c == h)) [
                    | inl same ↦
                        let yes = (==_iff _ _).1 (
                          ap (λ (x : ℕ). x % double handle_of s)
                            ((==_iff (handle_of c) h).0 same)) in
                        absurd (cc)
                    | inr not_same ↦ not_same
                  ] in
                  rw (handle_grab, new, there, other)
            ]
      ]
