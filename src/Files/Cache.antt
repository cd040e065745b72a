-- ===== src/Files/Cache.antt =====
-- The upgrade files that are loaded.
use lemon_server.Common.{
  ℕ, ◌≤◌, ◌≡◌, refl, [], ◌∷◌, Option, none, some, length, length-take, take, ◌%◌, ◌^◌, arith, ◌==◌,
  if◌then◌else◌,
}
use lemon_server.Common.Bytes.{Bytes}
use lemon_server.Files.{
  FileInfo, FileMap, find, insert, get_file_info, load_file_info, read_file, upgradefile_maxsize,
}

find-insert :
    (k j : ℕ) (v : Option FileInfo) (m : FileMap)
    → find j (insert k v m) ≡ (if k == j then some v else find j m)
unfolding find insert
find-insert k j v [] = refl
find-insert k j v ((i, w) ∷ m) = ground (arith, find-insert k j v m)

-- After a successful load `getFileInfo` gives the loaded file under its id, and any other id what
-- it gave before; a second load of the id gives the same file without reading any, whatever name it
-- is given and whatever the disk holds by then.
pub get_file_info-load :
    (disk disk' : Bytes → Option Bytes) (id j : ℕ) (name name' : Bytes) (m m' : FileMap)
    (f : FileInfo)
    → load_file_info disk id name m ≡ (some f, m')
    → (get_file_info j m' ≡ (if id == j then some f else get_file_info j m))
      × (load_file_info disk' id name' m' ≡ (some f, m'))
unfolding load_file_info get_file_info
get_file_info-load disk disk' id j name name' m m' f e =
    ground
      (arith, find-insert id j (read_file disk name) m, find-insert id id (read_file disk name) m)

-- A load of an id that `getFileInfo` does not find: if it succeeds, the file's content is what the disk
-- has under the name, or as many bytes from its start as 32 bits of its size say, and at most 50 MB
-- long; if it throws, a null entry is left under the id, with which `getFileInfo` finds nothing.
pub load_file_info_read :
    (disk : Bytes → Option Bytes) (id : ℕ) (name : Bytes) (m : FileMap)
    → get_file_info id m ≡ none
    → ((f : FileInfo) (m' : FileMap)
        → load_file_info disk id name m ≡ (some f, m')
        → (length f.file_content ≤ upgradefile_maxsize)
          × (content : Bytes) × (disk name ≡ some content)
          × (f.file_content ≡ take (length content % 2 ^ 32) content))
      × ((m' : FileMap)
          → load_file_info disk id name m ≡ (none, m')
          → (find id m' ≡ some none) × (get_file_info id m' ≡ none))
unfolding load_file_info read_file
load_file_info_read disk id name m missing =
    (λ f m' e. at (disk name) refl f m' e, λ m' e. ground (arith, find-insert id id none m))
  where
    at :
        (o : Option Bytes)
        → disk name ≡ o
        → (f : FileInfo) (m' : FileMap) → load_file_info disk id name m ≡ (some f, m')
        → (length f.file_content ≤ upgradefile_maxsize)
          × (content : Bytes) × (disk name ≡ some content)
          × (f.file_content ≡ take (length content % 2 ^ 32) content)
    at none x f m' e = absurd (ground (arith, x, e))
    at (some content) x f m' e = (
      ground (arith, x, e, length-take (length content % 2 ^ 32) content),
      content,
      x,
      ground (arith, x, e),
    )
