-- ===== src/Common/Maps.antt =====
-- `std::unordered_map` with strings for keys. Nothing depends on the order of its entries.
use lemon_server.Common.{List, [], ◌∷◌, Option, none, some, ◌≡◌, refl, arith, if◌then◌else◌}
use lemon_server.Common.Bytes.{Bytes, same, same_iff}

-- `unordered_map::find`, `operator[] =` and `erase`.
module _ {V : Type 0} where
  unfoldable pub find : Bytes → List (Bytes × V) → Option V
  find k [] = none
  find k ((j, v) ∷ m) = let rest = find k m in if same j k then some v else rest

  unfoldable pub insert : Bytes → V → List (Bytes × V) → List (Bytes × V)
  insert k v [] = (k, v) ∷ []
  insert k v ((j, w) ∷ m) =
      let rest = insert k v m in if same j k then (k, v) ∷ m else (j, w) ∷ rest

  unfoldable pub erase : Bytes → List (Bytes × V) → List (Bytes × V)
  erase k [] = []
  erase k ((j, w) ∷ m) = let rest = erase k m in if same j k then rest else (j, w) ∷ rest

pub find-insert :
    {V : Type 0} (k j : Bytes) (v : V) (m : List (Bytes × V))
    → find j (insert k v m) ≡ (if same k j then some v else find j m)
unfolding find insert
find-insert k j v [] = refl
find-insert k j v ((i, w) ∷ m) =
    ground (arith, find-insert k j v m, same_iff i k, same_iff i j, same_iff k j)

pub find-erase :
    {V : Type 0} (k j : Bytes) (m : List (Bytes × V))
    → find j (erase k m) ≡ (if same k j then none else find j m)
unfolding find erase
find-erase k j [] = ground arith
find-erase k j ((i, w) ∷ m) =
    ground (arith, find-erase k j m, same_iff i k, same_iff i j, same_iff k j)
