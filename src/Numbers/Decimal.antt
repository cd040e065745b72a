-- ===== src/Numbers/Decimal.antt =====
-- Numerals in decimal.
use lemon_server.Common.{
  ℕ, ◌+◌, ◌-◌, ◌*◌, ◌^◌, ◌<◌, ◌≤◌, ◌≡◌, refl, ap, ◌∙◌, true, false, [], ◌∷◌, ◌++◌, length, arith,
  All,
}
use native.Mathlib.Nat.{mul_right_comm, mul-le-mul_right, pow-suc, mul_assoc}
use lemon_server.Common.Bytes.{Bytes}
use lemon_server.Numbers.{is_digit, digits_value, without_space, strtol, signed, positive}

abbrev pub Digit : ℕ → Type 0
Digit c = is_digit c ≡ true

-- The value that a numeral denotes.
abbrev pub numeral_value : ℕ → Bytes → ℕ
numeral_value acc [] = acc
numeral_value acc (c ∷ cs) = numeral_value (acc * 10 + (c - 48)) cs

-- No digit stands at the front.
abbrev pub Ended : Bytes → Type 0
Ended [] = Unit
Ended (c ∷ cs) = is_digit c ≡ false

digits_value-append :
    (ds rest : Bytes) (acc : ℕ)
    → All Digit ds
    → Ended rest
    → digits_value acc (ds ++ rest) ≡ numeral_value acc ds
unfolding digits_value
digits_value-append [] [] acc h e = refl
digits_value-append [] (c ∷ cs) acc h e = ground (arith, e)
digits_value-append (d ∷ ds) rest acc h e =
    ground (arith, h.0, digits_value-append ds rest (acc * 10 + (d - 48)) h.1 e)

without_space_front : (d : ℕ) (ds : Bytes) → Digit d → without_space (d ∷ ds) ≡ d ∷ ds
unfolding without_space
without_space_front d ds h = ground arith

signed_front : (d : ℕ) (ds : Bytes) → Digit d → signed (d ∷ ds) ≡ positive (digits_value 0 (d ∷ ds))
unfolding signed
signed_front d ds h = ground arith

-- A numeral that fits, whatever follows it, as long as that is no digit.
pub strtol-numeral :
    (d : ℕ) (ds rest : Bytes)
    → All Digit (d ∷ ds)
    → Ended rest
    → numeral_value 0 (d ∷ ds) < 2 ^ 63
    → strtol ((d ∷ ds) ++ rest) ≡ numeral_value 0 (d ∷ ds)
unfolding strtol
strtol-numeral d ds rest h e fits =
    ap signed (without_space_front d (ds ++ rest) h.0)
    ∙ signed_front d (ds ++ rest) h.0
    ∙ ap positive (digits_value-append (d ∷ ds) rest 0 h e)
    ∙ ground arith

-- The value of a numeral of a few digits.
pub numeral_value-lt :
    (ds : Bytes) (acc : ℕ) → All Digit ds → numeral_value acc ds < (acc + 1) * 10 ^ length ds
numeral_value-lt [] acc h = omega arith
numeral_value-lt (d ∷ ds) acc h =
    let step : acc * 10 + (d - 48) + 1 ≤ (acc + 1) * 10 = ground (arith, h.0) in
    omega (
      arith,
      numeral_value-lt ds (acc * 10 + (d - 48)) h.1,
      mul-le-mul_right (10 ^ length ds) step,
      ap (λ (k : ℕ). (acc + 1) * k) (pow-suc 10 (length ds)),
      mul_assoc (acc + 1) 10 (10 ^ length ds),
      mul_assoc (acc + 1) (10 ^ length ds) 10,
      mul_right_comm (acc + 1) 10 (10 ^ length ds),
    )
