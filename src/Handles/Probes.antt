-- ===== src/Handles/Probes.antt =====
-- The search for a free slot.
use rillserver.Prelude.{
  ℕ, zero, suc, ◌+◌, ◌%◌, ◌^◌, ◌<◌, ◌≤◌, ◌≡◌, inl, inr, ap, sym, ◌∙◌, arith, false, Option, some,
  ltb,
}
use rillserver.Prelude.Ring.{used, add-used}
use rillserver.Handles.{HandleStorage, find_handle, handle_mask}
use rillserver.Handles.Table.{Probe, hit, full, Option-cases}
use native.Mathlib.Nat.{mod-lt, mod-add-mod}

-- A search that does not come to the last handle takes the first one with a free slot.
pub find_handle-Probe :
    (n : ℕ) (s : HandleStorage) (handle : ℕ)
    → handle + n ≤ 2 ^ 24
    → Probe s handle n (find_handle n s handle)
unfolding find_handle
find_handle-Probe zero s handle le = full (λ k lt. absurd (omega arith))
find_handle-Probe (suc n) s handle le =
    let here : ltb handle_mask handle ≡ false = ground arith in
    rw (find_handle, here)
      (elim (Option-cases (s.slot (handle % s.slot_size))) [
        | inl e ↦ rw (e, here) (hit handle (omega arith) (omega arith) e)
        | inr (c, e) ↦
            rw (e, here)
              (further c e (find_handle n s (handle + 1))
                (find_handle-Probe n s (handle + 1) (omega arith)))
      ])
  where
    further :
        (c : ℕ)
        → s.slot (handle % s.slot_size) ≡ some c
        → (o : Option ℕ) → Probe s (handle + 1) n o
        → Probe s handle (suc n) o
    further c e o (hit h lo hi free) = hit h (omega arith) (omega arith) free
    further c e o (full all) = full (λ k lt. at_step k lt)
      where
        at_step : (k : ℕ) → k < suc n → (c : ℕ) × (s.slot ((handle + k) % s.slot_size) ≡ some c)
        at_step zero lt = (c, ap (λ (i : ℕ). s.slot (i % s.slot_size)) (omega arith) ∙ e)
        at_step (suc k) lt =
            let (c', e') = all k (omega arith) in
            (c', ap (λ (i : ℕ). s.slot (i % s.slot_size)) (omega arith) ∙ e')

used-lt : (n h i : ℕ) → h < n → i < n → used n h i < n
used-lt n h i p q = ground arith

-- As many steps as there are slots come to every slot.
pub full_round :
    (s : HandleStorage) (handle : ℕ)
    → 1 ≤ s.slot_size
    → ((k : ℕ) → k < s.slot_size → (c : ℕ) × (s.slot ((handle + k) % s.slot_size) ≡ some c))
    → (i : ℕ) → i < s.slot_size
    → (c : ℕ) × (s.slot i ≡ some c)
full_round s handle up all i lt =
    let start = handle % s.slot_size in
    let start_lt : start < s.slot_size = mod-lt handle up in
    let steps = used s.slot_size start i in
    let (c, e) = all steps (used-lt s.slot_size start i start_lt lt) in
    let there : (handle + steps) % s.slot_size ≡ i =
      sym (mod-add-mod handle s.slot_size steps) ∙ add-used s.slot_size start i start_lt lt in
    (c, ap s.slot (sym there) ∙ e)
