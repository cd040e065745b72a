-- ===== src/Program/Tests.antt =====
-- Both programs come up with a configuration that has all that they ask for.
use lemon_server.Common.{ℕ, ◌≡◌, refl, List, [], ◌∷◌, Option, some, none, true, false, inl}
use lemon_server.Common.Bytes.{Bytes}
use lemon_server.Common.Maps.{find, insert}
use lemon_server.Address.{endpoint, regex_match, scan, groups}
use lemon_server.Center.Tests.{quiet}
use lemon_server.Config.{Section, rooted, AttributeMap, sections, section_map, reload}
use lemon_server.Config.Access.{bytes, Alike}
use lemon_server.Numbers.{strtol}
use lemon_server.Pool
use lemon_server.Program.{Machine, main}
use lemon_server.Program.Center
use lemon_server.Program.Center.Starts.{configured_world, center_starts}
use lemon_server.Program.Proxy
use lemon_server.Program.Proxy.Starts.{proxy_starts}
use lemon_server.Protocol.Errors.{ok}

abbrev settings : List Section
settings =
    record {
      name = bytes "program";
      nodes = (bytes "chunksize", some (bytes "512")) ∷ (bytes "chunkcount", some (bytes "2")) ∷ [];
    }
    ∷ record {
      name = bytes "protocol";
      nodes =
          (bytes "onlineIP", some (bytes "10.0.0.1"))
          ∷ (bytes "onlinePort", some (bytes "99"))
          ∷ (bytes "heartbeat", some (bytes "30"))
          ∷ [];
    }
    ∷ record {
      name = bytes "centeraddr";
      nodes =
          (bytes "terminal", some (bytes "0.0.0.0:80"))
          ∷ (bytes "web", some (bytes "0.0.0.0:81"))
          ∷ (bytes "msgpush", some (bytes "0.0.0.0:82"))
          ∷ [];
    }
    ∷ record {
      name = bytes "proxyraddr";
      nodes =
          (bytes "terminal", some (bytes "0.0.0.0:80"))
          ∷ (bytes "center", some (bytes "0.0.0.0:81"))
          ∷ [];
    }
    ∷ []

from_sections : Option AttributeMap → AttributeMap
from_sections none = []
from_sections (some m) = m

abbrev configured : AttributeMap
unfolding sections section_map insert from_sections
configured = from_sections (sections settings [])

-- Nothing fails.
abbrev sound : Machine Bytes
sound = record {
  file = λ name. rooted settings;
  daemon_fails = false;
  chdir_fails = λ dir. false;
  allocates = λ n. some 4096;
  opens = λ conn_str. true;
  from_string = λ ip. some ip;
  listens = λ e. true;
}

settings_read : reload (rooted settings) [] ≡ some (ok configured)
unfolding reload sections section_map insert from_sections configured
settings_read = refl

-- The end points are the addresses and the ports.
Parsed : Bytes → ℕ → Type 0
Parsed addr port = endpoint sound.from_string addr ≡ ok (bytes "0.0.0.0", port)

at_80 : Parsed (bytes "0.0.0.0:80") 80
unfolding Parsed endpoint regex_match scan groups strtol
at_80 = refl

at_81 : Parsed (bytes "0.0.0.0:81") 81
unfolding Parsed endpoint regex_match scan groups strtol
at_81 = refl

at_82 : Parsed (bytes "0.0.0.0:82") 82
unfolding Parsed endpoint regex_match scan groups strtol
at_82 = refl

center_starts_example :
    (after : AttributeMap) × Alike after configured
    × (main sound (Center.boot sound quiet 7 8) (some (bytes "conf"))
        ≡ some (
            ok (
              Center.new_server (record (configured_world configured 7 (Pool.init 4096 512 2)) {
                online_port = 99;
                heartbeat_time = 30;
              }),
              after,
            )))
unfolding configured Pool.init strtol find Parsed
center_starts_example =
    center_starts sound quiet 7 8 configured 4096 (bytes "0.0.0.0", 82) (some (bytes "conf"))
      settings refl settings_read (inl refl) refl refl at_82 refl
      ((bytes "0.0.0.0", 80), at_80, refl) ((bytes "0.0.0.0", 81), at_81, refl) (λ calls c. refl)

proxy_starts_example :
    (after : AttributeMap) × Alike after configured
    × (main sound (Proxy.boot sound) none
        ≡ some (ok (Proxy.new_server (Proxy.new_world 30 (Pool.init 4096 512 2)), after)))
unfolding configured Pool.init strtol find Parsed
proxy_starts_example =
    proxy_starts sound configured 4096 none settings refl settings_read (inl refl) refl
      ((bytes "0.0.0.0", 80), at_80, refl) ((bytes "0.0.0.0", 81), at_81, refl)
