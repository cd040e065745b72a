-- ===== src/Numbers.antt =====
-- `std::strtol` in base 10, and what its callers make of the `long`: src/module/icsconfig.cpp,
-- src/module/tcpserver.cpp and src/module/icspushsystem.cpp. A `long` is its 64 bits, as a number.
pub mod Decimal
use lemon_server.Common.{
  ℕ, ◌+◌, ◌-◌, ◌*◌, ◌%◌, ◌^◌, Bool, ◌&&◌, ◌||◌, [], ◌∷◌, ltb, leb, ◌==◌, if◌then◌else◌,
}
use lemon_server.Common.Bytes.{Bytes}

abbrev pub is_digit : ℕ → Bool
is_digit c = leb 48 c && leb c 57

abbrev is_space : ℕ → Bool
is_space c = c == 32 || (leb 9 c && leb c 13)

-- The value of the digits at the front, behind those that have the value `acc`.
unfoldable pub digits_value : ℕ → Bytes → ℕ
digits_value acc [] = acc
digits_value acc (c ∷ cs) =
    let rest = digits_value (acc * 10 + (c - 48)) cs in if is_digit c then rest else acc

unfoldable pub without_space : Bytes → Bytes
without_space [] = []
without_space (c ∷ cs) = let rest = without_space cs in if is_space c then rest else c ∷ cs

-- The largest `long` stands for what is larger, and the smallest one for what is smaller.
abbrev pub positive : ℕ → ℕ
positive n = if ltb n (2 ^ 63) then n else 2 ^ 63 - 1

abbrev pub negative : ℕ → ℕ
negative n = if ltb n (2 ^ 63) then (2 ^ 64 - n) % 2 ^ 64 else 2 ^ 63

signed : Bytes → ℕ
unfolding digits_value
signed [] = 0
signed (c ∷ cs) =
    if c == b'-'
    then negative (digits_value 0 cs)
    else if c == b'+'
    then positive (digits_value 0 cs)
    else positive (digits_value 0 (c ∷ cs))

unfoldable pub strtol : Bytes → ℕ
unfolding signed without_space
strtol s = signed (without_space s)

-- The conversions to `int`, to `unsigned short`, and of an `int` to `std::size_t`.
abbrev pub to_int : ℕ → ℕ
to_int n = n % 2 ^ 32

abbrev pub to_ushort : ℕ → ℕ
to_ushort n = n % 2 ^ 16

abbrev pub to_size : ℕ → ℕ
to_size n = if ltb n (2 ^ 31) then n else n + (2 ^ 64 - 2 ^ 32)
