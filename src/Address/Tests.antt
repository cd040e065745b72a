-- ===== src/Address/Tests.antt =====
-- An address with a port that has more than 16 bits.
use lemon_server.Common.{◌≡◌, ◌⊎◌, refl, Option, some}
use lemon_server.Common.Bytes.{Bytes}
use lemon_server.Address.{endpoint, scan, groups, regex_match}
use lemon_server.Address.Grammar.{IsAddress, Accepted, endpoint_cases}
use lemon_server.Config.Access.{bytes}
use lemon_server.Numbers.{strtol}
use lemon_server.Protocol.Errors.{bad_address_format, ok, throw}

-- All texts are addresses.
abbrev any_address : Bytes → Option Bytes
any_address ip = some ip

endpoint_cases_example :
    ((ip port : Bytes) × IsAddress (bytes "10.0.0.1:65537") ip port
      × Accepted any_address (bytes "10.0.0.1:65537") ip port)
    ⊎ (((ip port : Bytes) → IsAddress (bytes "10.0.0.1:65537") ip port → ⊥)
        × (endpoint any_address (bytes "10.0.0.1:65537") ≡ throw bad_address_format))
endpoint_cases_example = endpoint_cases any_address (bytes "10.0.0.1:65537")

port_cut : endpoint any_address (bytes "10.0.0.1:65537") ≡ ok (bytes "10.0.0.1", 1)
unfolding endpoint regex_match scan groups strtol
port_cut = refl
