-- ===== src/Files.antt =====
-- src/module/downloadfile.hpp and downloadfile.cpp: `FileUpgradeManager`.
-- The operating system is a parameter: `open_file` maps a file name to the file's content, or to
-- `none` where open or mmap fails. ICS_CENTER_MODE is not defined (src/module/config.hpp), so
-- `getFileInfo` never asks the database.
pub mod Cache
mod Tests
use lemon_server.Common.{
  ℕ, ◌*◌, ◌%◌, ◌^◌, take, Bool, true, false, List, [], ◌∷◌, Option, none, some, length, ltb, ◌==◌,
  if◌then◌else◌,
}
use lemon_server.Common.Bytes.{Bytes}
use lemon_server.Protocol.Errors.{Exception, file_error}

pub record FileInfo : Type 0 where
  pub file_content : Bytes
  pub file_name : Bytes

-- `file_length`
abbrev pub file_length : FileInfo → ℕ
file_length f = length f.file_content

-- UPGRADEFILE_MAXSIZE and UPGRADE_FILE_SEGMENG_SIZE
abbrev pub upgradefile_maxsize : ℕ
upgradefile_maxsize = 1024 * 1024 * 50

abbrev pub upgrade_file_segmeng_size : ℕ
upgrade_file_segmeng_size = 512

-- `m_fileMap`. An entry may be null: `operator[]` makes it before the file is read.
abbrev pub FileMap : Type 0
FileMap = List (ℕ × Option FileInfo)

unfoldable pub find : ℕ → FileMap → Option (Option FileInfo)
find k [] = none
find k ((j, v) ∷ m) = let rest = find k m in if j == k then some v else rest

unfoldable pub insert : ℕ → Option FileInfo → FileMap → FileMap
insert k v [] = (k, v) ∷ []
insert k v ((j, w) ∷ m) = let rest = insert k v m in if j == k then (k, v) ∷ m else (j, w) ∷ rest

-- `getFileInfo` outside ICS_CENTER_MODE
unfoldable pub get_file_info : ℕ → FileMap → Option FileInfo
get_file_info fileid m = elim (find fileid m) [ none ↦ none | some f ↦ f ]

-- `FileInfo(filename)`; `none` is the exception that it throws. `file_length` has 32 bits, and as many bytes
-- as it says are mapped.
unfoldable pub read_file : (Bytes → Option Bytes) → Bytes → Option FileInfo
read_file open_file name = elim (open_file name) [
  | none ↦ none
  | some content ↦
      let size = length content % 2 ^ 32 in
      if ltb upgradefile_maxsize size
      then none
      else some (record { file_content = take size content; file_name = name })
]

load_new : (Bytes → Option Bytes) → ℕ → Bytes → FileMap → Option FileInfo × FileMap
load_new open_file fileid name m =
    (read_file open_file name, insert fileid (read_file open_file name) m)

-- `loadFileInfo(fileid, filename)`: the file, or `none` for a throw, and the map. Where the
-- constructor throws, the null entry stays.
unfoldable pub load_file_info :
    (Bytes → Option Bytes) → ℕ → Bytes → FileMap → Option FileInfo × FileMap
unfolding load_new get_file_info
load_file_info open_file fileid name m = elim (get_file_info fileid m) [
  | some f ↦ (some f, m)
  | none ↦ load_new open_file fileid name m
]
