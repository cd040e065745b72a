-- ===== src/Address.antt =====
-- src/module/tcpserver.cpp `TcpServer::init` and src/module/icspushsystem.cpp `PushSystem::PushSystem`: the
-- address in the configuration. Both have the same pattern, ^((\d{1,3}\.){3}\d{1,3}):(\d{1,5})$, and
-- make an end point of its first and its third group.
pub mod Grammar
pub mod Scan
mod Tests
use lemon_server.Common.{
  ℕ, Bool, false, ◌&&◌, List, [], ◌∷◌, ◌++◌, Option, none, some, length, leb, ◌==◌, if◌then◌else◌,
}
use lemon_server.Common.Bytes.{Bytes, is_empty}
use lemon_server.Numbers.{is_digit, strtol, to_ushort}
use lemon_server.Protocol.Errors.{bad_address_format, std_exception, Result, ok, throw}

-- The digits at the front, and what stands behind them.
abbrev pub digits_of : Bytes → Bytes
digits_of [] = []
digits_of (c ∷ cs) = let rest = digits_of cs in if is_digit c then c ∷ rest else []

abbrev pub behind_digits : Bytes → Bytes
behind_digits [] = []
behind_digits (c ∷ cs) = let rest = behind_digits cs in if is_digit c then rest else c ∷ cs

-- Between one and `most` of them.
abbrev pub is_count : ℕ → Bytes → Bool
is_count most ds = leb 1 (length ds) && leb (length ds) most

abbrev pub starts_with : ℕ → Bytes → Bool
starts_with c [] = false
starts_with c (b ∷ bs) = b == c

abbrev pub tail : Bytes → Bytes
tail [] = []
tail (b ∷ bs) = bs

-- Groups of up to three digits, each with its separator behind it, and one of up to five at the end.
unfoldable pub scan : List ℕ → Bytes → Option (List Bytes)
scan [] s =
    if is_count 5 (digits_of s) && is_empty (behind_digits s) then some (digits_of s ∷ []) else none
scan (c ∷ cs) s =
    let rest = scan cs (tail (behind_digits s)) in
    if is_count 3 (digits_of s) && starts_with c (behind_digits s)
    then elim rest [ none ↦ none | some ds ↦ some (digits_of s ∷ ds) ]
    else none

-- The first group and the third.
unfoldable pub groups : List Bytes → Option (Bytes × Bytes)
groups (a ∷ b ∷ c ∷ d ∷ p ∷ []) = some (a ++ b'.' ∷ (b ++ b'.' ∷ (c ++ b'.' ∷ d)), p)
groups _ = none

abbrev pub separators : List ℕ
separators = b'.' ∷ b'.' ∷ b'.' ∷ b':' ∷ []

-- `std::regex_match` with the pattern.
unfoldable pub regex_match : Bytes → Option (Bytes × Bytes)
unfolding scan groups
regex_match addr = elim (scan separators addr) [ none ↦ none | some ds ↦ groups ds ]

-- `asio::ip::address::from_string` throws where it has no address for the text. The port is an
-- `unsigned short`.
module _ {A : Type 0} (from_string : Bytes → Option A) where
  endpoint_of : Bytes → Option A → Result (A × ℕ)
  unfolding strtol
  endpoint_of port none = throw std_exception
  endpoint_of port (some a) = ok (a, to_ushort (strtol port))

  matched : Option (Bytes × Bytes) → Result (A × ℕ)
  unfolding endpoint_of
  matched none = throw bad_address_format
  matched (some (ip, port)) = endpoint_of port (from_string ip)

  unfoldable pub endpoint : Bytes → Result (A × ℕ)
  unfolding matched regex_match
  endpoint addr = matched (regex_match addr)
