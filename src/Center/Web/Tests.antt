-- ===== src/Center/Web/Tests.antt =====
-- Runs of the web server's connection on a small world.
use lemon_server.Common.{◌≡◌, refl, [], ◌∷◌, ◌++◌, some}
use lemon_server.Common.Bytes.{Bytes}
use lemon_server.Center.Monad.{Scene, done}
use lemon_server.Center.Tests.{quiet, small_world}
use lemon_server.Center.Web.{handle_ics_forward, handle_remote_forward}
use lemon_server.Center.Web.Status.{handle_ics_forward_status, Recorded, rewound}
use lemon_server.Center.Registry.{find_remote_proxy}
use lemon_server.Center.Web.Remote.{handle_remote_forward_status, Outcome}
use lemon_server.Center.World.{find, new_client, remote_proxy_client}
use lemon_server.Protocol.Head.{new_head}
use lemon_server.Protocol.Stream.{Reader, get_number, get_string}

abbrev read_from : Bytes → Bytes → Reader
read_from b a = record { head = new_head; before = b; after = a }

abbrev scene : Bytes → Scene
scene body = record {
  world = small_world;
  request = read_from [] body;
  response = record { start = some 1000; head = new_head; body = []; room = 496 };
}

-- Message 0x0201 with the request's number 9, for the terminal "a".
abbrev for_a : Bytes
for_a = 1 ∷ b'a' ∷ []

abbrev numbers : Bytes
numbers = 1 ∷ 2 ∷ 9 ∷ 0 ∷ 0 ∷ 0 ∷ []

handle_ics_forward_status_example :
    Recorded quiet 0x0201 9
      (rewound quiet (scene (for_a ++ numbers)) (read_from (for_a ++ numbers) []))
      (b'a' ∷ [])
      λ out. handle_ics_forward quiet (scene (for_a ++ numbers)) ≡ done tt out
unfolding get_string get_number
handle_ics_forward_status_example =
    handle_ics_forward_status quiet (scene (for_a ++ numbers)) (b'a' ∷ []) 0x0201 9
      (read_from for_a numbers) (read_from (for_a ++ 1 ∷ 2 ∷ []) (9 ∷ 0 ∷ 0 ∷ 0 ∷ []))
      (read_from (for_a ++ numbers) []) refl refl refl refl (λ i e. refl) (λ calls c. refl)

-- The same of enterprise "e", to whose proxy server connection 0 leads.
abbrev of_e : Bytes
of_e = 1 ∷ b'e' ∷ for_a ++ numbers

abbrev remote_scene : Scene
remote_scene = record (scene of_e) {
  world = record small_world {
    clients = λ j. new_client remote_proxy_client;
    proxy_conn_map = (b'e' ∷ [], 0) ∷ [];
  };
}

handle_remote_forward_status_example :
    (out : Scene) × (handle_remote_forward quiet remote_scene ≡ done tt out)
    × Outcome quiet 0x0201 9 (rewound quiet remote_scene (read_from of_e [])) (some 0) out
unfolding get_string get_number find find_remote_proxy
handle_remote_forward_status_example =
    handle_remote_forward_status quiet remote_scene (b'e' ∷ []) (b'a' ∷ []) 0x0201 9
      (read_from (1 ∷ b'e' ∷ []) (for_a ++ numbers)) (read_from (1 ∷ b'e' ∷ for_a) numbers)
      (read_from (1 ∷ b'e' ∷ for_a ++ 1 ∷ 2 ∷ []) (9 ∷ 0 ∷ 0 ∷ 0 ∷ [])) (read_from of_e []) refl
      refl refl refl refl (λ i e. refl) (λ calls c. refl)
