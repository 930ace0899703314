-- ===== src/Yaml/Decimal.antt =====
-- src/test_yaml_cpp_struct.cpp: numbers printed in decimal, and read back.
use example.Base.{ℕ, zero, suc, ◌+◌, ◌-◌, ◌*◌, ◌≤◌, ◌<◌, ◌≡◌, [], ◌∷◌, Text, All, arith, ◌/◌, ◌%◌}
use example.Yaml.{digits, decimal}

-- The number that a text of digits continues.
unfoldable pub read_digits : ℕ → Text → ℕ
read_digits n [] = n
read_digits n (c ∷ cs) = read_digits (n * 10 + (c - 48)) cs

digits_read :
    (fuel n : ℕ) (acc : Text) → n < fuel → read_digits 0 (digits fuel n acc) ≡ read_digits n acc
unfolding digits read_digits
digits_read zero n acc h = absurd (omega (arith, h))
digits_read (suc fuel) n acc h = ground (arith, digits_read fuel (n / 10) ((48 + n % 10) ∷ acc))

-- The decimal text of a number reads back as that number: its fuel is enough.
pub decimal_read : (n : ℕ) → read_digits 0 (decimal n) ≡ n
unfolding read_digits
decimal_read n = digits_read (suc n) n [] (omega arith)

-- A decimal digit.
abbrev pub Digit : ℕ → Type 0
Digit c = (48 ≤ c) × (c < 58)

digits-Digit : (fuel n : ℕ) (acc : Text) → All Digit acc → All Digit (digits fuel n acc)
unfolding digits
digits-Digit zero n acc h = h
digits-Digit (suc fuel) n acc h =
    ground (arith, h, digits-Digit fuel (n / 10) ((48 + n % 10) ∷ acc))

pub decimal-Digit : (n : ℕ) → All Digit (decimal n)
decimal-Digit n = digits-Digit (suc n) n [] tt
