-- ===== src/Center/Terminal/Upgrade/Fragment.antt =====
-- The fragment of the upgrade file that a terminal gets.
use lemon_server.Common.{
  ℕ, ◌+◌, ◌^◌, ◌≤◌, ◌<◌, ◌≡◌, length, take, drop, length-take, length-drop, arith,
}
use lemon_server.Common.Bytes.{Bytes}
use lemon_server.Center.Terminal.Upgrade.{fragment_size}
use lemon_server.Files.{upgradefile_maxsize}

-- The size, for a file length in place of the file.
size-least :
    (offset len file : ℕ)
    → file ≤ upgradefile_maxsize
    → offset ≤ file
    → len < 2 ^ 16
    → (fragment_size offset len file ≤ len)
      × (fragment_size offset len file ≤ 512)
      × (offset + fragment_size offset len file ≤ file)
      × (len ≤ 512 → offset + len ≤ file → fragment_size offset len file ≡ len)
unfolding fragment_size
size-least offset len file small inside word = ground arith

-- For a file of at most 50 MB, an offset in it and a 16-bit length: the size of the fragment is at
-- most the length asked for and at most 512, the fragment lies in the file, and the bytes sent are
-- as many as the size says. A request of at most 512 bytes that the file holds gets all of them.
pub fragment_size-fits :
    (offset len : ℕ) (content : Bytes)
    → length content ≤ upgradefile_maxsize
    → offset ≤ length content
    → len < 2 ^ 16
    → (fragment_size offset len (length content) ≤ len)
      × (fragment_size offset len (length content) ≤ 512)
      × (offset + fragment_size offset len (length content) ≤ length content)
      × (length (take (fragment_size offset len (length content)) (drop offset content))
          ≡ fragment_size offset len (length content))
      × (len ≤ 512
          → offset + len ≤ length content
          → fragment_size offset len (length content) ≡ len)
fragment_size-fits offset len content small inside word =
    let size = fragment_size offset len (length content) in
    let (asked, limit, within, whole) = size-least offset len (length content) small inside word in
    (
      asked,
      limit,
      within,
      omega (arith, length-take size (drop offset content), length-drop offset content),
      whole,
    )
