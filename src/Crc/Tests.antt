-- ===== src/Crc/Tests.antt =====
-- One entry of the table.
use lemon_server.Common.{◌≡◌, ◌*◌, ◌^◌, arith, get_or}
use lemon_server.Crc.{crc32_table}
use lemon_server.Crc.Table.{shift_bits, table_divides}

table_divides_example : get_or crc32_table 200 0 ≡ shift_bits 8 (200 * 2 ^ 24)
table_divides_example = table_divides 200 (omega arith)
