-- ===== src/Protocol/Head.antt =====
-- src/module/icsprotocol.hpp and .cpp: `IcsMsgHead`, the 16 bytes before every message body.
-- The struct is packed, and both byte orders are little-endian: a field holds its value, and
-- `head_bytes` is the struct's memory. `flag_data` is the union's 16-bit view.
pub mod Layout
use lemon_server.Common.{
  ℕ, ◌+◌, ◌-◌, ◌*◌, ◌/◌, ◌%◌, ◌^◌, ◌<◌, ◌≡◌, Bool, List, [], ◌∷◌, ◌++◌, take, drop, ◌==◌,
}
use lemon_server.Common
use lemon_server.Common.Bytes.{Bytes, le_bytes, le_value}

pub record IcsMsgHead : Type 0 where
  pub name : Bytes
  pub version : ℕ
  pub length : ℕ
  pub flag_data : ℕ
  pub send_num : ℕ
  pub ack_num : ℕ
  pub id : ℕ

-- "ICS#"
abbrev pub ics_head_protocol_name : Bytes
ics_head_protocol_name = b'I' ∷ b'C' ∷ b'S' ∷ b'#' ∷ []

abbrev pub ics_head_protocol_version : ℕ
ics_head_protocol_version = 0x0101

-- sizeof(IcsMsgHead)
abbrev pub head_size : ℕ
head_size = 16

abbrev pub crc_code_size : ℕ
crc_code_size = 4

-- `IcsMsgHead()`
unfoldable pub new_head : IcsMsgHead
new_head = record {
  name = ics_head_protocol_name;
  version = ics_head_protocol_version;
  length = 0;
  flag_data = 0;
  send_num = 0;
  ack_num = 0;
  id = 0;
}

-- The struct's memory, and the struct that lies at the front of some memory.
unfoldable pub head_bytes : IcsMsgHead → Bytes
head_bytes h =
    h.name
    ++ (le_bytes 2 h.version
        ++ (le_bytes 2 h.length
            ++ (le_bytes 2 h.flag_data
                ++ (le_bytes 2 h.send_num ++ (le_bytes 2 h.ack_num ++ le_bytes 2 h.id)))))

-- The `w`-byte number at offset `at` of some memory.
abbrev pub field : ℕ → ℕ → Bytes → ℕ
field start w buf = le_value (take w (drop start buf))

unfoldable pub head_of : Bytes → IcsMsgHead
head_of buf = record {
  name = take 4 buf;
  version = field 4 2 buf;
  length = field 6 2 buf;
  flag_data = field 8 2 buf;
  send_num = field 10 2 buf;
  ack_num = field 12 2 buf;
  id = field 14 2 buf;
}

-- The setters take a `uint16_t`.
unfoldable pub set_msg_id : ℕ → IcsMsgHead → IcsMsgHead
set_msg_id id h = record h { id = id % 2 ^ 16 }

unfoldable pub set_length : ℕ → IcsMsgHead → IcsMsgHead
set_length len h = record h { length = len % 2 ^ 16 }

unfoldable pub set_send_num : ℕ → IcsMsgHead → IcsMsgHead
set_send_num num h = record h { send_num = num % 2 ^ 16 }

unfoldable pub set_ack_num : ℕ → IcsMsgHead → IcsMsgHead
set_ack_num num h = record h { ack_num = num % 2 ^ 16 }

-- `encrypt` is bits 0-3 of the union, `reserved1` bits 4-7, `ack` bit 8 and `response` bit 9.
unfoldable pub set_flag : ℕ → ℕ → ℕ → IcsMsgHead → IcsMsgHead
set_flag encrypt ack need_response h = record h {
  flag_data =
      encrypt % 16
      + 16 * (h.flag_data / 16 % 16)
      + 256 * (ack % 2)
      + 512 * (need_response % 2)
      + 1024 * (h.flag_data / 1024);
}

unfoldable pub is_response : IcsMsgHead → Bool
is_response h = (h.flag_data / 2 ^ 8) % 2 == 1

unfoldable pub need_response : IcsMsgHead → Bool
need_response h = (h.flag_data / 2 ^ 8) % 4 == 2

-- `getFlag` returns the id.
unfoldable pub get_flag : IcsMsgHead → ℕ
get_flag h = h.id

-- A head as the setters leave it: four name bytes and 16-bit fields.
pub record IsHead (h : IcsMsgHead) : Type 0 where
  pub name_size : Common.length h.name ≡ 4
  pub version_fits : h.version < 2 ^ 16
  pub length_fits : h.length < 2 ^ 16
  pub flag_fits : h.flag_data < 2 ^ 16
  pub send_fits : h.send_num < 2 ^ 16
  pub ack_fits : h.ack_num < 2 ^ 16
  pub id_fits : h.id < 2 ^ 16
