-- ===== src/Handles/Retire.antt =====
-- `skynet_handle_retire`: a handle and its names go.
use rillserver.Prelude.{
  ℕ, zero, suc, ◌+◌, ◌%◌, ◌<◌, ◌≤◌, ◌≡◌, inl, inr, refl, ap, ap₂, sym, ◌∙◌, arith, Bool, true,
  false, Option, none, some, ◌==◌, ==_iff, if◌then◌else◌, Bool-cases, List, [], ◌∷◌, ◌++◌,
  append_assoc, append-nil,
}
use rillserver.Prelude.Ring.{update, tabulate, tabulate_ext, tabulate-suc}
use rillserver.Handles.{HandleName, HandleStorage, drop_names, handle_retire, handle_grab}
use rillserver.Handles.Table.{IsTable, Option-cases}

-- The names in order.
abbrev pub entries : HandleStorage → List HandleName
entries s = tabulate s.name_count s.names

-- The names of other handles.
abbrev pub others : ℕ → List HandleName → List HandleName
others handle [] = []
others handle (n ∷ ns) = if n.handle == handle then others handle ns else n ∷ others handle ns

abbrev counted : ℕ × (ℕ → HandleName) → List HandleName
counted r = tabulate r.0 r.1

-- One name more is kept.
tabulate_snoc :
    (j : ℕ) (f g : ℕ → HandleName) (v : HandleName) (rest : List HandleName)
    → ((k : ℕ) → k < j → g k ≡ f k)
    → g j ≡ v
    → tabulate (j + 1) g ++ rest ≡ tabulate j f ++ (v ∷ rest)
tabulate_snoc j f g v rest same last =
    ap (λ (m : ℕ). tabulate m g ++ rest) (let e : j + 1 ≡ suc j = omega arith in e)
    ∙ ap (λ l. l ++ rest) (tabulate-suc j g)
    ∙ append_assoc (tabulate j g) (g j ∷ []) rest
    ∙ ap₂ (λ l x. l ++ (x ∷ rest)) (tabulate_ext j g f same) last

drop_names-others :
    (n handle i j : ℕ) (names : ℕ → HandleName)
    → j ≤ i
    → counted (drop_names n handle i j names)
      ≡ tabulate j names ++ others handle (tabulate n (λ k. names (i + k)))
unfolding drop_names
drop_names-others zero handle i j names le = sym (append-nil (tabulate j names))
drop_names-others (suc n) handle i j names le =
    let at_i : names (i + 0) ≡ names i = ap names (omega arith) in
    let behind : tabulate n (λ k. names (i + suc k)) ≡ tabulate n (λ k. names (i + 1 + k)) =
      tabulate_ext n _ _ (λ k lt. ap names (omega arith)) in
    elim (Bool-cases ((names i).handle == handle)) [
      | inl h ↦
          rw (drop_names, at_i, behind, h)
            (drop_names-others n handle (i + 1) j names (omega arith))
      | inr h ↦
          rw (drop_names, at_i, behind, h)
            (elim (Bool-cases (i == j)) [
              | inl e ↦ rw e (
                  drop_names-others n handle (i + 1) (j + 1) names (omega arith)
                  ∙ tabulate_snoc j names names (names i) _ (λ k lt. refl)
                      (ap names (sym ((==_iff i j).0 e))))
              | inr e ↦ rw e (
                  drop_names-others n handle (i + 1) (j + 1) (update names j (names i))
                    (omega arith)
                  ∙ tabulate_snoc j names (update names j (names i)) (names i) _ (λ k lt. kept k lt)
                      self
                  ∙ ap (λ l. tabulate j names ++ (names i ∷ others handle l))
                      (tabulate_ext n _ _ (λ k lt. later k)))
            ])
    ]
  where
    self : update names j (names i) j ≡ names i
    self = let yes : (j == j) ≡ true = (==_iff j j).1 refl in rw yes

    kept : (k : ℕ) → k < j → update names j (names i) k ≡ names k
    kept k lt = let no : (j == k) ≡ false = ground arith in rw no

    later : (k : ℕ) → update names j (names i) (i + 1 + k) ≡ names (i + 1 + k)
    later k = let no : (j == i + 1 + k) ≡ false = ground arith in rw no

abbrev pub is_found : Option ℕ → Bool
is_found none = false
is_found (some ctx) = true

-- What the end of a handle must come to.
pub record Retires (handle_of : ℕ → ℕ) (s : HandleStorage) (handle : ℕ)
    (result : Bool × HandleStorage) : Type 0 where
  pub sound : IsTable handle_of result.1
  pub grabs :
      (h : ℕ)
      → handle_grab handle_of result.1 h ≡ (if handle == h then none else handle_grab handle_of s h)
  pub names_left : entries result.1 ≡ (if result.0 then others handle (entries s) else entries s)
  pub was_there : result.0 ≡ is_found (handle_grab handle_of s handle)

module _ (handle_of : ℕ → ℕ) (s : HandleStorage) (handle ctx : ℕ) (v : IsTable handle_of s)
    (there : s.slot (handle % s.slot_size) ≡ some ctx)
    (is_it : (handle_of ctx == handle) ≡ true) where
  abbrev left : HandleStorage
  left =
      let (count, names) = drop_names s.name_count handle 0 0 s.names in
      record s {
        slot = update s.slot (handle % s.slot_size) none;
        name_count = count;
        names = names;
      }

  slot-here : (i : ℕ) → (handle % s.slot_size == i) ≡ true → left.slot i ≡ none
  slot-here i h = rw h

  slot-elsewhere : (i : ℕ) → (handle % s.slot_size == i) ≡ false → left.slot i ≡ s.slot i
  slot-elsewhere i h = rw h

  grabs_left :
      (h : ℕ)
      → handle_grab handle_of left h ≡ (if handle == h then none else handle_grab handle_of s h)
  unfolding handle_grab
  grabs_left h = elim (Bool-cases (handle % s.slot_size == h % s.slot_size)) [
    | inl k ↦
        let here = slot-here (h % s.slot_size) k in
        let was : s.slot (h % s.slot_size) ≡ some ctx =
          ap s.slot (sym ((==_iff _ _).0 k)) ∙ there in
        let same : (handle_of ctx == h) ≡ (handle == h) =
          ap (λ (x : ℕ). x == h) ((==_iff (handle_of ctx) handle).0 is_it) in
        rw (handle_grab, here, was, same)
          (elim (Bool-cases (handle == h)) [ inl e ↦ rw e | inr e ↦ rw e ])
    | inr k ↦
        let t = slot-elsewhere (h % s.slot_size) k in
        let other : (handle == h) ≡ false = elim (Bool-cases (handle == h)) [
          | inl same ↦
              let yes =
                (==_iff _ _).1 (ap (λ (x : ℕ). x % s.slot_size) ((==_iff handle h).0 same)) in
              absurd (cc)
          | inr not_same ↦ not_same
        ] in
        rw (other, handle_grab, t)
  ]

  found_ctx : handle_grab handle_of s handle ≡ some ctx
  unfolding handle_grab
  found_ctx = rw (handle_grab, there, is_it)

  gone-Retires : Retires handle_of s handle (true, left)
  gone-Retires = record {
    sound = record {
      left = v.left;
      size = v.size;
      node_id = v.node_id;
      harbor = v.harbor;
      index_up = v.index_up;
      index_fits = v.index_fits;
      placed = λ i c lt e. elim (Bool-cases (handle % s.slot_size == i)) [
        | inl h ↦ absurd (let k = slot-here i h in cc)
        | inr h ↦ v.placed i c lt (sym (slot-elsewhere i h) ∙ e)
      ];
    };
    grabs = grabs_left;
    names_left =
        drop_names-others s.name_count handle 0 0 s.names (omega arith)
        ∙ ap (others handle) (tabulate_ext s.name_count _ _ (λ k lt. ap s.names (omega arith)));
    was_there = sym (ap is_found found_ctx);
  }

-- On a sound table, after the end of a handle it finds no context, and every other handle finds what
-- it found before. Where it found one, its names go and the others stay in their order; where not,
-- the names stay, and the result says so.
pub handle_retire-Retires :
    (handle_of : ℕ → ℕ) (s : HandleStorage) (handle : ℕ)
    → IsTable handle_of s
    → Retires handle_of s handle (handle_retire handle_of s handle)
unfolding handle_retire handle_grab
handle_retire-Retires handle_of s handle v = elim (Option-cases (s.slot (handle % s.slot_size))) [
  | inl empty ↦ rw (handle_retire, empty) (unchanged (rw (handle_grab, empty)))
  | inr (ctx, there) ↦ elim (Bool-cases (handle_of ctx == handle)) [
    | inr other ↦ rw (handle_retire, there, other) (unchanged (rw (handle_grab, there, other)))
    | inl is_it ↦
        rw (handle_retire, there, is_it) (gone-Retires handle_of s handle ctx v there is_it)
  ]
]
  where
    unchanged : handle_grab handle_of s handle ≡ none → Retires handle_of s handle (false, s)
    unchanged nobody = record {
      sound = v;
      grabs = λ h. elim (Bool-cases (handle == h)) [
        | inl e ↦ rw e (ap (handle_grab handle_of s) (sym ((==_iff handle h).0 e)) ∙ nobody)
        | inr e ↦ rw e
      ];
      names_left = refl;
      was_there = sym (ap is_found nobody);
    }
