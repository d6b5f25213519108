-- ===== src/Handles/Table.antt =====
-- The slots as the map from handles to contexts.
use rillserver.Prelude.{
  ℕ, zero, suc, ◌+◌, ◌*◌, ◌%◌, ◌^◌, ◌<◌, ◌≤◌, ◌≡◌, ◌≢◌, ◌⊎◌, inl, inr, refl, ap, sym, ◌∙◌, arith,
  Option, none, some,
}
use rillserver.Handles.{HandleStorage}
use native.Mathlib.Nat.{add-mul-mod_self_left, mul_assoc}

-- The size of the table can be doubled `left` times, and every context stands where its handle says.
pub record IsTable (handle_of : ℕ → ℕ) (s : HandleStorage) : Type 0 where
  pub left : ℕ
  pub size : s.slot_size * 2 ^ left ≡ 2 ^ 24
  pub node_id : ℕ
  pub harbor : s.harbor ≡ 2 ^ 24 * node_id
  pub index_up : 1 ≤ s.handle_index
  pub index_fits : s.handle_index ≤ 2 ^ 24
  pub placed : (i c : ℕ) → i < s.slot_size → s.slot i ≡ some c → handle_of c % s.slot_size ≡ i

-- A context that is not in the table.
abbrev pub IsAbsent : HandleStorage → ℕ → Type 0
IsAbsent s ctx = (i : ℕ) → i < s.slot_size → s.slot i ≢ some ctx

pub size-pos : (n q : ℕ) → n * q ≡ 2 ^ 24 → 1 ≤ n
size-pos zero q e = absurd (omega (arith, e))
size-pos (suc n) q e = omega arith

-- The harbor does not count for the slot.
pub mod-harbor :
    (handle_of : ℕ → ℕ) (s : HandleStorage) (h : ℕ)
    → IsTable handle_of s
    → (h + s.harbor) % s.slot_size ≡ h % s.slot_size
mod-harbor handle_of s h v =
    ap (λ (x : ℕ). (h + x) % s.slot_size)
      (v.harbor
        ∙ ap (λ (x : ℕ). x * v.node_id) (sym v.size)
        ∙ mul_assoc s.slot_size (2 ^ v.left) v.node_id)
    ∙ add-mul-mod_self_left h s.slot_size (2 ^ v.left * v.node_id)

-- What a free slot, or a round of all the slots, is found to be.
pub data Probe (s : HandleStorage) (handle n : ℕ) : Option ℕ → Type 0 where
  hit :
      (h : ℕ)
      → handle ≤ h
      → h < handle + n
      → s.slot (h % s.slot_size) ≡ none
      → Probe s handle n (some h)
  full :
      ((k : ℕ) → k < n → (c : ℕ) × (s.slot ((handle + k) % s.slot_size) ≡ some c))
      → Probe s handle n none

pub Option-cases : (o : Option ℕ) → (o ≡ none) ⊎ ((c : ℕ) × (o ≡ some c))
Option-cases none = inl refl
Option-cases (some c) = inr (c, refl)
