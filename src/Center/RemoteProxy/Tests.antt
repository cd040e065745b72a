-- ===== src/Center/RemoteProxy/Tests.antt =====
-- Runs of a remote proxy server's connection on a small world.
use lemon_server.Common.{◌+◌, ◌<◌, ◌≡◌, ◌↔◌, refl, true, false, [], ◌∷◌, ◌++◌, some, arith}
use lemon_server.Common.Bytes.{Bytes}
use lemon_server.Center.Messages.{handle_message}
use lemon_server.Center.Messages.Gate.{Untouched}
use lemon_server.Center.Monad.{Scene, done}
use lemon_server.Center.RemoteProxy.{handle, handle_auth_response, handle_terminal_message, in_time}
use lemon_server.Center.RemoteProxy.Accepted.{in_time_iff, handle_auth_response_future}
use lemon_server.Center.RemoteProxy.Forwarded.{handle_terminal_message_refused}
use lemon_server.Center.RemoteProxy.Gate.{unaccepted_lem}
use lemon_server.Center.Tests.{quiet, small_world, heartbeat}
use lemon_server.Center.World.{World, Client, Env, find, new_client, remote_proxy_client}
use lemon_server.Protocol.Head.{new_head, head_of, head_bytes, is_response}
use lemon_server.Protocol.MessageId.{code}
use lemon_server.Protocol.Stream.{Reader, get_number, get_string, init_request}

-- The connection to the proxy server of enterprise "e", which knows the terminal "t" as "m".
abbrev proxy : Client
proxy = record (new_client remote_proxy_client) {
  enterprise_id = b'e' ∷ [];
  remote_ids = (b't' ∷ [], b'm' ∷ []) ∷ [];
}

abbrev proxy_world : World
proxy_world = record small_world { clients = λ j. proxy }

unaccepted_lem_example :
    ((handle_message (handle quiet 0) 0 heartbeat proxy_world).0 ≡ false)
    × Untouched proxy_world (handle_message (handle quiet 0) 0 heartbeat proxy_world).1
unfolding head_of head_bytes init_request new_head code is_response
unaccepted_lem_example = unaccepted_lem quiet 0 heartbeat proxy_world refl (omega arith) refl

abbrev read_from : Bytes → Bytes → Reader
read_from b a = record { head = new_head; before = b; after = a }

abbrev scene : Bytes → Scene
scene body = record {
  world = proxy_world;
  request = read_from [] body;
  response = record { start = some 1000; head = new_head; body = []; room = 496 };
}

-- The times 1000 and 7, at the center's time 10.
abbrev late : Bytes
late = 232 ∷ 3 ∷ 0 ∷ 0 ∷ 0 ∷ 0 ∷ 0 ∷ 0 ∷ []

abbrev seven : Bytes
seven = 7 ∷ 0 ∷ 0 ∷ 0 ∷ 0 ∷ 0 ∷ 0 ∷ 0 ∷ []

abbrev at_ten : Env
at_ten = record quiet { clock = 10 }

in_time_iff_example : (in_time 10 1000 ≡ true) ↔ (10 < 1000 + 5)
in_time_iff_example = in_time_iff 10 1000 (omega arith) (omega arith)

handle_auth_response_future_example :
    (out : Scene) × (handle_auth_response at_ten 0 (scene (late ++ seven)) ≡ done tt out)
    × (((out.world.clients 0).is_legal ≡ true)
        × (find (b'e' ∷ []) out.world.proxy_conn_map ≡ some 0))
unfolding get_number
handle_auth_response_future_example =
    handle_auth_response_future at_ten 0 (scene (late ++ seven)) 1000 7 (read_from late seven)
      (read_from (late ++ seven) []) refl refl refl (omega arith) (omega arith) (omega arith)
      (omega arith) (λ calls c. refl)

-- A heartbeat of the terminal "t".
abbrev forward : Bytes
forward = 1 ∷ b't' ∷ 1 ∷ 11 ∷ []

handle_terminal_message_refused_example :
    (out : Scene) × (handle_terminal_message quiet 0 (scene forward) ≡ done tt out)
    × (out.response ≡ (scene forward).response)
    × (out.world.db ≡ [])
    × (out.world.terminal_conn_map ≡ proxy_world.terminal_conn_map)
    × (out.world.proxy_conn_map ≡ [])
unfolding get_string get_number find code
handle_terminal_message_refused_example =
    handle_terminal_message_refused quiet 0 (scene forward) (b't' ∷ []) (b'm' ∷ []) 0x0b01
      (read_from (1 ∷ b't' ∷ []) (1 ∷ 11 ∷ [])) (read_from forward []) refl refl refl refl refl
      (omega arith)
