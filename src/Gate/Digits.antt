-- ===== src/Gate/Digits.antt =====
-- "%d" of a positive number.
use rillserver.Prelude.{
  ℕ, zero, suc, ◌+◌, ◌-◌, ◌*◌, ◌/◌, ◌%◌, ◌^◌, ◌<◌, ◌≤◌, ◌≡◌, inl, inr, refl, ap, ◌∙◌, arith, List,
  [], ◌∷◌, ◌++◌, ◌==◌, Bool-cases,
}
use rillserver.Gate.{digits}
use native.Mathlib.Nat.{pow-suc}

-- The number that decimal digits say, behind those that say `n`.
abbrev pub number : ℕ → List ℕ → ℕ
number n [] = n
number n (d ∷ ds) = number (n * 10 + (d - 48)) ds

abbrev pub AllDigits : List ℕ → Type 0
AllDigits [] = Unit
AllDigits (d ∷ ds) = ((48 ≤ d) × (d < 58)) × AllDigits ds

-- A number as it is printed: decimal digits, the first of them not 0.
pub record IsDecimal (n : ℕ) (ds : List ℕ) : Type 0 where
  pub all_digits : AllDigits ds
  pub value : number 0 ds ≡ n
  pub leading : (d : ℕ) × (rest : List ℕ) × (ds ≡ d ∷ rest) × (49 ≤ d)

pub digits-append :
    (fuel n : ℕ) (rest more : List ℕ) → digits fuel n (rest ++ more) ≡ digits fuel n rest ++ more
unfolding digits
digits-append zero n rest more = refl
digits-append (suc fuel) n rest more = elim (Bool-cases (n / 10 == 0)) [
  | inl e ↦ rw (digits, e)
  | inr e ↦ rw (digits, e) (digits-append fuel (n / 10) ((48 + n % 10) ∷ rest) more)
]

number-digits :
    (fuel n : ℕ) (rest : List ℕ)
    → n < 10 ^ fuel
    → 1 ≤ n
    → number 0 (digits fuel n rest) ≡ number n rest
unfolding digits
number-digits zero n rest lt up = absurd (omega (arith, lt))
number-digits (suc fuel) n rest lt up = elim (Bool-cases (n / 10 == 0)) [
  | inl e ↦
      rw (digits, e)
        (ap (λ (m : ℕ). number m rest)
          (let k : 0 * 10 + (48 + n % 10 - 48) ≡ n = ground arith in k))
  | inr e ↦
      rw (digits, e)
        (number-digits fuel (n / 10) ((48 + n % 10) ∷ rest) (omega (arith, lt, pow-suc 10 fuel))
            (ground arith)
          ∙ ap (λ (m : ℕ). number m rest)
              (let k : n / 10 * 10 + (48 + n % 10 - 48) ≡ n = omega arith in k))
]

digits-AllDigits : (fuel n : ℕ) (rest : List ℕ) → AllDigits rest → AllDigits (digits fuel n rest)
unfolding digits
digits-AllDigits zero n rest a = a
digits-AllDigits (suc fuel) n rest a = elim (Bool-cases (n / 10 == 0)) [
  | inl e ↦ rw (digits, e) ((omega arith, omega arith), a)
  | inr e ↦
      rw (digits, e)
        (digits-AllDigits fuel (n / 10) ((48 + n % 10) ∷ rest) ((omega arith, omega arith), a))
]

digits-leading :
    (fuel n : ℕ) (rest : List ℕ)
    → n < 10 ^ fuel
    → 1 ≤ n
    → (d : ℕ) × (more : List ℕ) × (digits fuel n rest ≡ d ∷ more) × (49 ≤ d)
unfolding digits
digits-leading zero n rest lt up = absurd (omega (arith, lt))
digits-leading (suc fuel) n rest lt up = elim (Bool-cases (n / 10 == 0)) [
  | inl e ↦ rw (digits, e) (48 + n % 10, rest, refl, ground arith)
  | inr e ↦
      rw (digits, e)
        (digits-leading fuel (n / 10) ((48 + n % 10) ∷ rest) (omega (arith, lt, pow-suc 10 fuel))
          (ground arith))
]

pub decimal : (n : ℕ) → 1 ≤ n → n < 2 ^ 31 → IsDecimal n (digits 10 n [])
decimal n up lt = record {
  all_digits = digits-AllDigits 10 n [] tt;
  value = number-digits 10 n [] (omega arith) up;
  leading = digits-leading 10 n [] (omega arith) up;
}
