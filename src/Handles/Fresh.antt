-- ===== src/Handles/Fresh.antt =====
-- A context in a free slot of the table.
use rillserver.Prelude.{
  some_inj, ℕ, ◌+◌, ◌%◌, ◌^◌, ◌<◌, ◌≤◌, ◌≡◌, inl, inr, refl, ap, sym, ◌∙◌, arith, true, false, none,
  some, ◌==◌, ==_iff, if◌then◌else◌, Bool-cases,
}
use rillserver.Prelude.Ring.{update}
use rillserver.Handles.{HandleStorage, Outcome, returns, handle_grab}
use rillserver.Handles.Table.{IsTable, IsAbsent, Option-cases, size-pos, mod-harbor}
use native.Mathlib.Nat.{mod-lt}

-- What the registration of a context must come to.
pub record Registers (handle_of : ℕ → ℕ) (s : HandleStorage) (ctx : ℕ)
    (result : Outcome (ℕ × HandleStorage)) : Type 0 where
  pub local : ℕ
  pub after : HandleStorage
  pub done : result ≡ returns (local + s.harbor, after)
  pub next_up : s.handle_index ≤ local
  pub local_fits : local < 2 ^ 24
  pub unused : handle_grab handle_of s (local + s.harbor) ≡ none
  pub sound : IsTable (update handle_of ctx (local + s.harbor)) after
  pub grabs :
      (h : ℕ)
      → handle_grab (update handle_of ctx (local + s.harbor)) after h
        ≡ (if local + s.harbor == h then some ctx else handle_grab handle_of s h)

-- The context comes to stand in a free slot.
module _ (handle_of : ℕ → ℕ) (s : HandleStorage) (ctx local : ℕ) (v : IsTable handle_of s)
    (away : IsAbsent s ctx) (up : s.handle_index ≤ local) (fits : local < 2 ^ 24)
    (free : s.slot (local % s.slot_size) ≡ none) where
  abbrev handle : ℕ
  handle = local + s.harbor

  abbrev placed_at : HandleStorage
  placed_at = record s {
    slot = update s.slot (local % s.slot_size) (some ctx);
    handle_index = local + 1;
  }

  abbrev handle_of' : ℕ → ℕ
  handle_of' = update handle_of ctx handle

  same_slot : handle % s.slot_size ≡ local % s.slot_size
  same_slot = mod-harbor handle_of s local v

  free-unused : handle_grab handle_of s handle ≡ none
  unfolding handle_grab
  free-unused = let none_there = ap s.slot same_slot ∙ free in rw (handle_grab, none_there)

  new_handle : handle_of' ctx ≡ handle
  new_handle = let self : (ctx == ctx) ≡ true = (==_iff ctx ctx).1 refl in rw self

  old_handle : (i c : ℕ) → i < s.slot_size → s.slot i ≡ some c → handle_of' c ≡ handle_of c
  old_handle i c lt e = elim (Bool-cases (ctx == c)) [
    | inl h ↦ absurd (away i lt (e ∙ ap some (sym ((==_iff ctx c).0 h))))
    | inr h ↦ rw h
  ]

  slot-here : (i : ℕ) → (local % s.slot_size == i) ≡ true → placed_at.slot i ≡ some ctx
  slot-here i h = rw h

  slot-elsewhere : (i : ℕ) → (local % s.slot_size == i) ≡ false → placed_at.slot i ≡ s.slot i
  slot-elsewhere i h = rw h

  placed-IsTable : IsTable handle_of' placed_at
  placed-IsTable = record {
    left = v.left;
    size = v.size;
    node_id = v.node_id;
    harbor = v.harbor;
    index_up = omega arith;
    index_fits = omega (arith, fits);
    placed = λ i c lt e. elim (Bool-cases (local % s.slot_size == i)) [
      | inl h ↦
          let is_ctx : ctx ≡ c = some_inj (sym (slot-here i h) ∙ e) in
          ap (λ (x : ℕ). handle_of' x % s.slot_size) (sym is_ctx)
          ∙ ap (λ (x : ℕ). x % s.slot_size) new_handle
          ∙ same_slot
          ∙ (==_iff _ i).0 h
      | inr h ↦
          let old : s.slot i ≡ some c = sym (slot-elsewhere i h) ∙ e in
          ap (λ (x : ℕ). x % s.slot_size) (old_handle i c lt old) ∙ v.placed i c lt old
    ];
  }

  placed-grabs :
      1 ≤ s.slot_size
      → (h : ℕ)
      → handle_grab handle_of' placed_at h
        ≡ (if handle == h then some ctx else handle_grab handle_of s h)
  unfolding handle_grab
  placed-grabs some_slots h = elim (Bool-cases (local % s.slot_size == h % s.slot_size)) [
    | inl k ↦
        let here = slot-here (h % s.slot_size) k in
        let empty : s.slot (h % s.slot_size) ≡ none = ap s.slot (sym ((==_iff _ _).0 k)) ∙ free in
        rw (handle_grab, here, new_handle, empty)
    | inr k ↦
        let there = slot-elsewhere (h % s.slot_size) k in
        let other : (handle == h) ≡ false = elim (Bool-cases (handle == h)) [
          | inl same ↦
              let yes =
                (==_iff _ _).1
                  (sym same_slot ∙ ap (λ (x : ℕ). x % s.slot_size) ((==_iff handle h).0 same)) in
              absurd (cc)
          | inr not_same ↦ not_same
        ] in
        elim (Option-cases (s.slot (h % s.slot_size))) [
          | inl empty ↦ let t = there ∙ empty in rw (handle_grab, t, other, empty)
          | inr (c, e) ↦
              let t = there ∙ e in
              let old = old_handle (h % s.slot_size) c (mod-lt h some_slots) e in
              rw (handle_grab, t, other, e, old)
        ]
  ]

  pub placed-Registers : Registers handle_of s ctx (returns (handle, placed_at))
  placed-Registers = record {
    local = local;
    after = placed_at;
    done = refl;
    next_up = up;
    local_fits = fits;
    unused = free-unused;
    sound = placed-IsTable;
    grabs = placed-grabs (size-pos s.slot_size (2 ^ v.left) v.size);
  }
