-- ===== src/Prelude/Ring.antt =====
-- Arrays used as rings: the slots in use, oldest first, from an index on.
use rillserver.Prelude.{
  ℕ, zero, suc, ◌+◌, ◌-◌, ◌%◌, ◌<◌, ◌≤◌, ◌≡◌, ◌≢◌, refl, ap, ap₂, ◌∙◌, arith, List, [], ◌∷◌, ◌++◌,
  length, leb, ◌==◌, if◌then◌else◌, Bool-cases, inl, inr, leb→le,
}
use native.Mathlib.Nat.{mod-eq_of_lt, mod-eq-sub-mod, add-mod_left}
use native.Mathlib.Decide.{dec_lt}

-- the index after `i`, as `if (++i >= cap) i = 0` leaves it
abbrev pub next : ℕ → ℕ → ℕ
next cap i = if leb cap (i + 1) then 0 else i + 1

-- how many slots lie from `head` up to `tail`
abbrev pub used : ℕ → ℕ → ℕ → ℕ
used cap head tail = if leb head tail then tail - head else tail + cap - head

module _ {ℓ} {A : Type ℓ} where
  -- An array is a function of the index; a write replaces one value.
  abbrev pub update : (ℕ → A) → ℕ → A → ℕ → A
  update f i v j = if i == j then v else f j

  abbrev pub tabulate : ℕ → (ℕ → A) → List A
  tabulate zero f = []
  tabulate (suc n) f = f 0 ∷ tabulate n (λ i. f (suc i))

  abbrev pub ring : (ℕ → A) → ℕ → ℕ → ℕ → List A
  ring f cap h n = tabulate n (λ i. f ((h + i) % cap))

  pub length-tabulate : (n : ℕ) (f : ℕ → A) → length (tabulate n f) ≡ n
  length-tabulate zero f = refl
  length-tabulate (suc n) f = ap suc (length-tabulate n (λ i. f (suc i)))

  pub tabulate_ext :
      (n : ℕ) (f g : ℕ → A) → ((i : ℕ) → i < n → f i ≡ g i) → tabulate n f ≡ tabulate n g
  tabulate_ext zero f g h = refl
  tabulate_ext (suc n) f g h =
      ap₂ ◌∷◌ (h 0 (omega arith))
        (tabulate_ext n (λ i. f (suc i)) (λ i. g (suc i)) (λ i p. h (suc i) (omega arith)))

  pub tabulate-suc : (n : ℕ) (f : ℕ → A) → tabulate (suc n) f ≡ tabulate n f ++ (f n ∷ [])
  tabulate-suc zero f = refl
  tabulate-suc (suc n) f = ap (λ xs. f 0 ∷ xs) (tabulate-suc n (λ i. f (suc i)))

-- A remainder below twice the divisor takes one subtraction.
pub mod_wrap : (cap x : ℕ) → x < cap + cap → x % cap ≡ (if leb cap x then x - cap else x)
mod_wrap cap x h = elim (dec_lt x cap) [
  | yes p ↦ ground (arith, mod-eq_of_lt p)
  | no p ↦ ground (
    arith,
    mod-eq-sub-mod {n = x} {m = cap} (omega arith),
    mod-eq_of_lt {n = x - cap} {m = cap} (omega arith),
  )
]

-- Fewer than `cap` steps do not come back to the start.
add-mod-ne : (cap h i n : ℕ) → h < cap → i < n → n < cap → (h + n) % cap ≢ (h + i) % cap
add-mod-ne cap h i n hh hi hn = ground (arith, mod_wrap cap (h + n), mod_wrap cap (h + i))

-- The first free slot is `tail`.
pub add-used : (cap h t : ℕ) → h < cap → t < cap → (h + used cap h t) % cap ≡ t
add-used cap h t hh ht = ground (arith, mod_wrap cap (h + used cap h t))

pub next-mod : (cap h i : ℕ) → h < cap → (h + suc i) % cap ≡ (next cap h + i) % cap
next-mod cap h i hh = elim (Bool-cases (leb cap (h + 1))) [
  | inl e ↦ rw e (
      ap (λ k. k % cap) (omega (arith, leb→le cap (h + 1) e))
      ∙ add-mod_left cap i
      ∙ ap (λ k. k % cap) (omega arith))
  | inr e ↦ rw e (ap (λ k. k % cap) (omega arith))
]

module _ {ℓ} {A : Type ℓ} (f : ℕ → A) (cap h : ℕ) (in_range : h < cap) where
  -- The oldest slot, and the others.
  pub ring-suc : (n : ℕ) → ring f cap h (suc n) ≡ f h ∷ ring f cap (next cap h) n
  ring-suc n =
      ap₂ ◌∷◌ (ap f (ap (λ k. k % cap) (omega arith) ∙ mod-eq_of_lt in_range))
        (tabulate_ext n _ _ (λ i p. ap f (next-mod cap h i in_range)))

  -- A write to the first free slot makes the ring longer by it.
  pub ring-update :
      (n t : ℕ) (v : A)
      → n < cap
      → t ≡ (h + n) % cap
      → ring (update f t v) cap h (suc n) ≡ ring f cap h n ++ (v ∷ [])
  ring-update n t v hn e =
      tabulate-suc n (λ i. update f t v ((h + i) % cap))
      ∙ ap₂ ◌++◌ (tabulate_ext n _ _ elsewhere) (ap (λ x. x ∷ []) (ground arith))
    where
      elsewhere : (i : ℕ) → i < n → update f t v ((h + i) % cap) ≡ f ((h + i) % cap)
      elsewhere i p = ground (arith, add-mod-ne cap h i n in_range p hn)

  -- The slots, copied in order to the start of a larger array.
  pub ring-copy :
      (cap' : ℕ) (g : ℕ → A)
      → cap ≤ cap'
      → ((i : ℕ) → i < cap → g i ≡ f ((h + i) % cap))
      → ring g cap' 0 cap ≡ ring f cap h cap
  ring-copy cap' g le same =
      tabulate_ext cap (λ i. g ((0 + i) % cap')) (λ i. f ((h + i) % cap))
        (λ i p. ap g (mod-eq_of_lt {n = 0 + i} {m = cap'} (omega arith) ∙ omega arith) ∙ same i p)
