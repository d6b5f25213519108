-- ===== src/Prelude/Int.antt =====
-- The C `int`: signed numbers over the native ones, and the cast from an unsigned word.
use rillserver.Prelude.{ℕ, ◌-◌, ◌%◌, ◌^◌, Bool, true, false, ltb, if◌then◌else◌}

-- `negsuc n` is -(n + 1).
pub data ℤ : Type 0 where
  pos : ℕ → ℤ
  negsuc : ℕ → ℤ

-- the value of a negative `int`: -1 is `neg 1`
abbrev pub neg : ℕ → ℤ
neg n = negsuc (n - 1)

-- `x < 0`
abbrev pub is_neg : ℤ → Bool
is_neg (pos n) = false
is_neg (negsuc n) = true

-- `(int) w` of an unsigned word: the low 32 bits, read in two's complement
abbrev pub to_int : ℕ → ℤ
to_int w = let low = w % 2 ^ 32 in if ltb low (2 ^ 31) then pos low else negsuc (2 ^ 32 - low - 1)
