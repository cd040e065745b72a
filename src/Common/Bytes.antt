-- ===== src/Common/Bytes.antt =====
-- Byte strings, and numbers stored in them, lowest byte first (icsprotocol.hpp: both byte orders
-- are LITTLE_ENDIAN, so `ics_byteorder` leaves every value as it is).
use native.Mathlib.Nat.{pow-suc}
use lemon_server.Common.{
  ℕ, zero, suc, ◌+◌, ◌*◌, ◌/◌, ◌%◌, ◌^◌, ◌≤◌, ◌<◌, ◌≡◌, refl, ap, Bool, true, false, List, [], ◌∷◌,
  ◌++◌, arith, length, take, drop, ◌==◌, if◌then◌else◌, All, ◌↔◌,
}

abbrev pub Bytes : Type 0
Bytes = List ℕ

abbrev pub Byte : ℕ → Type 0
Byte b = b < 256

-- `std::string::empty`
abbrev pub is_empty : Bytes → Bool
is_empty [] = true
is_empty (x ∷ xs) = false

-- `std::string::operator==`
abbrev pub same : Bytes → Bytes → Bool
same [] [] = true
same [] (y ∷ ys) = false
same (x ∷ xs) [] = false
same (x ∷ xs) (y ∷ ys) = if x == y then same xs ys else false

-- The `w` bytes of `n`; what does not fit is cut off.
abbrev pub le_bytes : ℕ → ℕ → Bytes
le_bytes zero n = []
le_bytes (suc w) n = (n % 256) ∷ le_bytes w (n / 256)

abbrev pub le_value : Bytes → ℕ
le_value [] = 0
le_value (b ∷ bs) = b + 256 * le_value bs

pub length-le_bytes : (w n : ℕ) → length (le_bytes w n) ≡ w
length-le_bytes zero n = refl
length-le_bytes (suc w) n = ap suc (length-le_bytes w (n / 256))

pub le_value-le_bytes : (w n : ℕ) → n < 256 ^ w → le_value (le_bytes w n) ≡ n
le_value-le_bytes zero n h = omega arith
le_value-le_bytes (suc w) n h =
    let rest : le_value (le_bytes w (n / 256)) ≡ n / 256 =
      le_value-le_bytes w (n / 256) (omega (arith, pow-suc 256 w)) in
    omega (arith, rest)

pub le_value-lt : (bs : Bytes) → All Byte bs → le_value bs < 256 ^ length bs
le_value-lt [] h = omega arith
le_value-lt (b ∷ bs) h = omega (arith, le_value-lt bs h.1, pow-suc 256 (length bs))

module _ {ℓ} {A : Type ℓ} where
  pub take-append : (xs ys : List A) → take (length xs) (xs ++ ys) ≡ xs
  take-append [] ys = refl
  take-append (x ∷ xs) ys = ap (◌∷◌ x) (take-append xs ys)

  pub drop-append : (xs ys : List A) → drop (length xs) (xs ++ ys) ≡ ys
  drop-append [] ys = refl
  drop-append (x ∷ xs) ys = drop-append xs ys

-- The same at a length that is known otherwise.
module _ {ℓ} {A : Type ℓ} {n : ℕ} (xs ys : List A) (h : length xs ≡ n) where
  pub take-append_at : take n (xs ++ ys) ≡ xs
  take-append_at = rw (← h) (take-append xs ys)

  pub drop-append_at : drop n (xs ++ ys) ≡ ys
  drop-append_at = rw (← h) (drop-append xs ys)

pub same_iff : (xs ys : Bytes) → (same xs ys ≡ true) ↔ (xs ≡ ys)
same_iff [] [] = (λ _. refl, λ _. refl)
same_iff [] (y ∷ ys) = (λ h. cc, λ h. cc)
same_iff (x ∷ xs) [] = (λ h. cc, λ h. cc)
same_iff (x ∷ xs) (y ∷ ys) =
    let ih = same_iff xs ys in (λ h. ground (arith, ih), λ h. ground (arith, ih))

-- `std::strlen` and `c_str`: the bytes before the first 0.
abbrev pub c_str : Bytes → Bytes
c_str [] = []
c_str (b ∷ bs) = let rest = c_str bs in if b == 0 then [] else b ∷ rest

pub c_str_lem : (s : Bytes) → All (λ b. 0 < b) s → c_str s ≡ s
c_str_lem [] h = refl
c_str_lem (b ∷ bs) h = ground (arith, c_str_lem bs h.1)

module _ {ℓ} {A : Type ℓ} where
  pub take-append_le : (n : ℕ) (xs ys : List A) → n ≤ length xs → take n (xs ++ ys) ≡ take n xs
  take-append_le zero xs ys h = refl
  take-append_le (suc n) [] ys h = absurd (omega arith)
  take-append_le (suc n) (x ∷ xs) ys h = ap (◌∷◌ x) (take-append_le n xs ys (omega arith))

  pub drop-append_le :
      (n : ℕ) (xs ys : List A) → n ≤ length xs → drop n (xs ++ ys) ≡ drop n xs ++ ys
  drop-append_le zero xs ys h = refl
  drop-append_le (suc n) [] ys h = absurd (omega arith)
  drop-append_le (suc n) (x ∷ xs) ys h = drop-append_le n xs ys (omega arith)
