-- ===== src/Proxy/Terminal/Upgrade/Tests.antt =====
-- An upgrade request for a terminal of a remote proxy server.
use lemon_server.Common.{◌≡◌, refl, none, [], ◌∷◌, arith}
use lemon_server.Center.Monad
use lemon_server.Center.RemoteProxy.Outgoing.{forward_body}
use lemon_server.Center.RemoteProxy.Outgoing.Upgrade.{command, request_of}
use lemon_server.Center.Tests
use lemon_server.Center.World
use lemon_server.Files.{load_file_info}
use lemon_server.Protocol.Errors.{ok}
use lemon_server.Protocol.Head.{new_head}
use lemon_server.Protocol.MessageId.{code, c2t_upgrade_request_0x0201}
use lemon_server.Protocol.Stream.{Reader, Writer, get_number, get_string}
use lemon_server.Protocol.Stream.RoundTrip.{at_pos}
use lemon_server.Proxy.Monad.{Scene}
use lemon_server.Proxy.Terminal.Upgrade.{load_upgrade, loaded}
use lemon_server.Proxy.Terminal.Upgrade.Path.{upgrade_path}
use lemon_server.Proxy.Tests.{quiet, small_world}

-- Every file has a path.
abbrev with_paths : World.Env
with_paths = record Tests.quiet { file_path = λ calls. b'p' ∷ [] }

abbrev empty_stream : Writer
empty_stream = record { start = none; head = new_head; body = []; room = 100 }

abbrev scene : Scene
scene = record { world = small_world; request = at_pos new_head [] []; response = empty_stream }

upgrade_path_example :
    (w' : Writer) × (s' : Monad.Scene) × (r1 : Reader) × (r2 : Reader) × (r3 : Reader)
    × (forward_body with_paths empty_stream (record {
      world = Tests.small_world;
      request = at_pos new_head [] (command (b'e' ∷ []) (b'a' ∷ []) (request_of 7 9 []));
      response = empty_stream;
    })
        ≡ Monad.done w' s')
    × (get_string 1 (at_pos new_head [] w'.body) ≡ ok (b'a' ∷ [], r1))
    × (get_number 2 r1 ≡ ok (code c2t_upgrade_request_0x0201, r2))
    × (load_upgrade quiet (record scene { request = r2 })
        ≡ loaded
            (load_file_info quiet.open_file 9 (b'/' ∷ b'p' ∷ []) [])
            (record scene { request = r3 }))
    × (r3.after ≡ request_of 7 9 [])
upgrade_path_example =
    upgrade_path with_paths quiet new_head new_head (b'e' ∷ []) (b'a' ∷ []) (b'p' ∷ []) 7 9 []
      Tests.small_world empty_stream empty_stream scene refl (λ calls c. refl) refl refl
      (omega arith) (omega arith) (omega arith) (omega arith) (omega arith, tt) (omega arith, tt)
      (omega arith)
