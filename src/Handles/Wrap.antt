-- ===== src/Handles/Wrap.antt =====
-- `skynet_handle_register` where the handles start over: no handle of this round has the slot 0.
use rillserver.Prelude.{
  ℕ, zero, suc, ◌+◌, ◌-◌, ◌*◌, ◌%◌, ◌^◌, ◌<◌, ◌≤◌, ◌≡◌, refl, ap, ◌∙◌, arith, false, Option, none,
  some, ltb,
}
use rillserver.Handles.{
  HandleStorage, null_pointer, find_handle, rehash, double_slots, handle_register, handle_mask,
}
use rillserver.Handles.Table.{IsTable}
use native.Mathlib.Nat.{mul-suc, mod-eq_of_lt, add-mul-mod_self_left}

-- Only the slot 0 is free.
pub record IsFullBut0 (s : HandleStorage) : Type 0 where
  pub free : s.slot 0 ≡ none
  pub taken : (i : ℕ) → 1 ≤ i → i < s.slot_size → (c : ℕ) × (s.slot i ≡ some c)

-- The slots that the last handles have.
mod-before_last : (n q e : ℕ) → n * q ≡ 2 ^ 24 → 1 ≤ e → e ≤ n → (2 ^ 24 - e) % n ≡ n - e
mod-before_last n zero e all up le = absurd (omega (arith, all))
mod-before_last n (suc q) e all up le =
    ap (λ (x : ℕ). x % n)
      (let p : 2 ^ 24 - e ≡ n - e + n * q = omega (arith, all, mul-suc n q) in p)
    ∙ add-mul-mod_self_left (n - e) n q
    ∙ mod-eq_of_lt (omega arith)

module _ (s : HandleStorage) (v : IsFullBut0 s) where
  -- from the handle 1 on
  find-none_low :
      (n handle : ℕ)
      → 1 ≤ handle
      → handle + n ≤ s.slot_size
      → s.slot_size ≤ 2 ^ 24
      → find_handle n s handle ≡ none
  unfolding find_handle
  find-none_low zero handle up le small = refl
  find-none_low (suc n) handle up le small =
      let here : ltb handle_mask handle ≡ false = ground arith in
      let (c, e) = v.taken handle up (omega arith) in
      let there : s.slot (handle % s.slot_size) ≡ some c =
        ap s.slot (mod-eq_of_lt (omega arith)) ∙ e in
      rw (find_handle, here, there, here)
        (find-none_low n (handle + 1) (omega arith) (omega arith) small)

  -- from the handle 2^24 - d on
  find-none_high :
      (n d q : ℕ)
      → s.slot_size * q ≡ 2 ^ 24
      → s.slot_size ≤ 2 ^ 24
      → d < s.slot_size
      → n < s.slot_size + d
      → find_handle n s (2 ^ 24 - d) ≡ none
  unfolding find_handle
  find-none_high zero d q all small lt le = refl
  find-none_high (suc n) zero q all small lt le =
      let (c, e) = v.taken 1 (omega arith) (omega arith) in
      let there : s.slot (1 % s.slot_size) ≡ some c = ap s.slot (mod-eq_of_lt (omega arith)) ∙ e in
      rw (find_handle, there) (find-none_low n 2 (omega arith) (omega arith) small)
  find-none_high (suc n) (suc d) q all small lt le =
      let here : ltb handle_mask (2 ^ 24 - suc d) ≡ false = ground arith in
      let (c, e) = v.taken (s.slot_size - suc d) (omega arith) (omega arith) in
      let there : s.slot ((2 ^ 24 - suc d) % s.slot_size) ≡ some c =
        ap s.slot (mod-before_last s.slot_size q (suc d) all (omega arith) (omega arith)) ∙ e in
      let next : 2 ^ 24 - suc d + 1 ≡ 2 ^ 24 - d = omega arith in
      rw (find_handle, here, there, here, next)
        (find-none_high n d q all small (omega arith) (omega arith))

rehash-empty :
    (n : ℕ) (handle_of : ℕ → ℕ) (s : HandleStorage) (new : ℕ → Option ℕ)
    → 1 ≤ n
    → s.slot 0 ≡ none
    → rehash n handle_of s 0 new ≡ null_pointer
unfolding rehash
rehash-empty zero handle_of s new up e = absurd (omega arith)
rehash-empty (suc n) handle_of s new up e = rw (rehash, e)

double_slots-crash :
    (handle_of : ℕ → ℕ) (s : HandleStorage)
    → 1 ≤ s.slot_size
    → s.slot_size * 2 ≤ 2 ^ 24
    → s.slot 0 ≡ none
    → double_slots handle_of s ≡ null_pointer
unfolding double_slots
double_slots-crash handle_of s up le e =
    let lost = rehash-empty s.slot_size handle_of s (λ i. none) up e in
    let fits : ltb handle_mask (s.slot_size * 2 - 1) ≡ false = ground arith in
    rw (double_slots, fits, lost)

-- On a sound table of at most 2^23 slots, where a round would go past the last handle and only the
-- slot 0 is free, the search finds no slot, the table is taken for full, and the loop that moves its
-- slots dereferences the NULL of the slot 0, in the first round of the registration.
pub handle_register-crash :
    (handle_of : ℕ → ℕ) (s : HandleStorage) (ctx fuel : ℕ)
    → IsTable handle_of s
    → IsFullBut0 s
    → s.slot_size * 2 ≤ 2 ^ 24
    → s.handle_index < 2 ^ 24
    → 2 ^ 24 < s.handle_index + s.slot_size
    → handle_register (suc fuel) handle_of s ctx ≡ null_pointer
unfolding handle_register
handle_register-crash handle_of s ctx fuel t v small in_range near =
    let d = 2 ^ 24 - s.handle_index in
    let is_d : s.handle_index ≡ 2 ^ 24 - d = omega (arith, in_range) in
    let nothing : find_handle s.slot_size s s.handle_index ≡ none =
      ap (find_handle s.slot_size s) is_d
      ∙ find-none_high s v s.slot_size d (2 ^ t.left) t.size (omega arith) (omega arith)
          (omega arith) in
    let crash = double_slots-crash handle_of s (omega arith) small v.free in
    rw (handle_register, nothing, crash)
