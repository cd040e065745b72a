-- ===== src/Files/Tests.antt =====
-- One file of three bytes.
use lemon_server.Common.{◌≡◌, refl, [], ◌∷◌, Option, none, some}
use lemon_server.Common.Bytes.{Bytes}
use lemon_server.Files.{FileInfo, find, insert, read_file, get_file_info, load_file_info}
use lemon_server.Files.Cache.{get_file_info-load}

abbrev disk : Bytes → Option Bytes
disk name = some (1 ∷ 2 ∷ 3 ∷ [])

abbrev no_disk : Bytes → Option Bytes
no_disk name = none

abbrev three_bytes : FileInfo
three_bytes = record { file_content = 1 ∷ 2 ∷ 3 ∷ []; file_name = b'f' ∷ [] }

get_file_info-load_example :
    (get_file_info 5 ((5, some three_bytes) ∷ []) ≡ some three_bytes)
    × (load_file_info no_disk 5 [] ((5, some three_bytes) ∷ [])
        ≡ (some three_bytes, (5, some three_bytes) ∷ []))
unfolding load_file_info read_file insert find
get_file_info-load_example =
    get_file_info-load disk no_disk 5 5 (b'f' ∷ []) [] [] ((5, some three_bytes) ∷ []) three_bytes
      refl
