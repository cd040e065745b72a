-- ===== src/Config.antt =====
-- src/module/icsconfig.hpp and icsconfig.cpp: `IcsConfig`. What tinyxml makes of the file is the argument of
-- `reload`.
pub mod Access
pub mod Reload
mod Tests
use lemon_server.Common.{ℕ, List, [], ◌∷◌, Option, none, some}
use lemon_server.Common.Bytes.{Bytes, c_str}
use lemon_server.Common.Maps.{find, insert}
use lemon_server.Numbers.{strtol, to_int}
use lemon_server.Protocol.Errors.{load_failed, no_root, null_argument, Result, ok, throw}

-- A child of the root: `Value()`, and of each of its children `Value()` and `GetText()`, which is a
-- null pointer where the element has no text.
pub record Section : Type 0 where
  pub name : Bytes
  pub nodes : List (Bytes × Option Bytes)

-- `LoadFile` fails, or there is no root element, or there is one.
pub data Document : Type 0 where
  failed rootless : Document
  rooted : List Section → Document

abbrev pub AttributeMap : Type 0
AttributeMap = List (Bytes × List (Bytes × Bytes))

-- The inner loop. A string that is assigned a null pointer is undefined behaviour, `none`.
unfoldable pub section_map :
    List (Bytes × Option Bytes) → List (Bytes × Bytes) → Option (List (Bytes × Bytes))
unfolding insert
section_map [] m = some m
section_map ((key, none) ∷ nodes) m = none
section_map ((key, some text) ∷ nodes) m = section_map nodes (insert key text m)

-- The outer loop, in which a section replaces the one that had its name.
unfoldable pub sections : List Section → AttributeMap → Option AttributeMap
unfolding section_map insert
sections [] m = some m
sections (s ∷ rest) m = elim (section_map s.nodes []) [
  | none ↦ none
  | some section ↦ sections rest (insert s.name section m)
]

unfoldable pub reload : Document → AttributeMap → Option (Result AttributeMap)
unfolding sections
reload failed m = some (throw load_failed)
reload rootless m = some (throw no_root)
reload (rooted l) m = elim (sections l m) [ none ↦ none | some m' ↦ some (ok m') ]

unfoldable pub load : Document → AttributeMap → Option (Result AttributeMap)
unfolding reload
load doc m = reload doc m

abbrev pub found {ℓ} : {A : Type ℓ} → A → Option A → A
found d none = d
found d (some a) = a

-- `m_attributeMap[module][key]` makes the entries that are missing.
abbrev pub attribute : Bytes → Bytes → AttributeMap → Bytes
attribute name key m = found [] (find key (found [] (find name m)))

unfoldable pub get_attribute_string :
    Option Bytes → Option Bytes → AttributeMap → Result (Bytes × AttributeMap)
unfolding find insert
get_attribute_string none key m = throw null_argument
get_attribute_string (some name) none m = throw null_argument
get_attribute_string (some name) (some key) m = ok (
  attribute name key m,
  insert name (insert key (attribute name key m) (found [] (find name m))) m,
)

int_of : Result (Bytes × AttributeMap) → Result (ℕ × AttributeMap)
unfolding strtol
int_of (throw e) = throw e
int_of (ok (val, m)) = ok (to_int (strtol (c_str val)), m)

unfoldable pub get_attribute_int :
    Option Bytes → Option Bytes → AttributeMap → Result (ℕ × AttributeMap)
unfolding get_attribute_string int_of
get_attribute_int name key m = int_of (get_attribute_string name key m)
