-- ===== src/Config/Tests.antt =====
-- A small configuration.
use lemon_server.Common.{◌≡◌, refl, List, [], ◌∷◌, some}
use lemon_server.Common.Maps.{insert}
use lemon_server.Config.{Section, AttributeMap, section_map, sections, reload, get_attribute_string}
use lemon_server.Config.Access.{bytes, Alike}
use lemon_server.Config.Reload.{get_attribute_string-reload}
use lemon_server.Protocol.Errors.{ok}

-- The section "log" twice, and in its second occurrence a key twice.
abbrev logs : List Section
logs =
    record { name = bytes "log"; nodes = (bytes "configfile", some (bytes "a")) ∷ [] }
    ∷ record {
      name = bytes "log";
      nodes = (bytes "level", some (bytes "1")) ∷ (bytes "level", some (bytes "2")) ∷ [];
    }
    ∷ []

abbrev read : AttributeMap
read = (bytes "log", (bytes "level", bytes "2") ∷ []) ∷ []

get_attribute_string-reload_example :
    (after : AttributeMap) × (get_attribute_string (some (bytes "log")) (some (bytes "level")) read
      ≡ ok (bytes "2", after))
    × Alike after read
unfolding reload sections section_map insert
get_attribute_string-reload_example =
    get_attribute_string-reload logs [] read (bytes "log") (bytes "level") refl
