-- ===== src/Crc/Table.antt =====
-- `Crc32Table` against the bitwise division by the CRC-32 polynomial that it tabulates.
use Prim.Native.Nat.{bit_xor}
use lemon_server.Common.{
  ℕ, zero, suc, ◌+◌, ◌*◌, ◌%◌, ◌^◌, ◌<◌, ◌≡◌, refl, ap, ◌∙◌, Bool, true, ◌&&◌, List, [], ◌∷◌,
  get_or, length, arith, ◌==◌, ==_iff, ltb, if◌then◌else◌,
}
use lemon_server.Crc.{crc32_table}

-- The generator polynomial of CRC-32, without its leading bit.
abbrev crc32_poly : ℕ
crc32_poly = 0x04c1_1db7

-- Shift one bit out of a 32-bit register, and divide if it was set.
shift_bit : ℕ → ℕ
shift_bit r = if ltb r (2 ^ 31) then r * 2 else bit_xor (r * 2 % 2 ^ 32) crc32_poly

unfoldable pub shift_bits : ℕ → ℕ → ℕ
unfolding shift_bit
shift_bits zero r = r
shift_bits (suc k) r = shift_bits k (shift_bit r)

-- Compare the entries, from `i` on, with the division.
agrees : ℕ → List ℕ → Bool
agrees i [] = true
agrees i (t ∷ ts) = t == shift_bits 8 (i * 2 ^ 24) && agrees (i + 1) ts

agrees_sound :
    (i : ℕ) (ts : List ℕ) (j : ℕ)
    → agrees i ts ≡ true
    → j < length ts
    → get_or ts j 0 ≡ shift_bits 8 ((i + j) * 2 ^ 24)
unfolding agrees
agrees_sound i [] j h lt = absurd (omega arith)
agrees_sound i (t ∷ ts) zero h lt = ground (arith, ==_iff t (shift_bits 8 (i * 2 ^ 24)), i_zero)
  where
    i_zero : shift_bits 8 ((i + zero) * 2 ^ 24) ≡ shift_bits 8 (i * 2 ^ 24)
    i_zero = ap (λ (n : ℕ). shift_bits 8 (n * 2 ^ 24)) (omega arith)
agrees_sound i (t ∷ ts) (suc j) h lt = ground (arith, agrees_sound (i + 1) ts j, i_suc)
  where
    i_suc : shift_bits 8 ((i + suc j) * 2 ^ 24) ≡ shift_bits 8 ((i + 1 + j) * 2 ^ 24)
    i_suc = ap (λ (n : ℕ). shift_bits 8 (n * 2 ^ 24)) (omega arith)

table_agrees : agrees 0 crc32_table ≡ true
unfolding agrees shift_bits crc32_table
table_agrees = refl

-- Each entry of the table, at any index below 256, is what eight single-bit division steps leave of
-- the index in the top byte of the register.
pub table_divides : (i : ℕ) → i < 256 → get_or crc32_table i 0 ≡ shift_bits 8 (i * 2 ^ 24)
table_divides i h =
    agrees_sound 0 crc32_table i table_agrees (unfold crc32_table in h)
    ∙ ap (λ (n : ℕ). shift_bits 8 (n * 2 ^ 24)) (omega arith)
