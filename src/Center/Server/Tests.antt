-- ===== src/Center/Server/Tests.antt =====
-- Runs of the center server: with nothing but its timer, and with a terminal that authenticates.
use lemon_server.Common.{
  ◌≡◌, ◌≢◌, ◌<◌, true, replicate, ◌++◌, ◌∷◌, [], refl, false, some, arith, if◌then◌else◌,
}
use lemon_server.Common.Bytes.{Bytes, is_empty, le_bytes}
use lemon_server.Crc.{crc32_code}
use lemon_server.Protocol.Head.{head_bytes, head_of, set_length, new_head}
use lemon_server.Protocol.MessageId.{code, of_code}
use lemon_server.Protocol.Stream.{init_request, verify, serialize, to_memory_chunk}
use lemon_server.Center.Registry.{find_terminal_client}
use lemon_server.Center.Terminal.Auth.Routes.{RefusesEmpty}
use lemon_server.Center.Server.Routing.{
  Reach, here, next, accepts, receives, Reach-find_terminal_client,
}
use lemon_server.Center.Server.{node, accept}
use lemon_server.Center.Server.Quiet.{accepted_ends}
use lemon_server.Center.Tests.{quiet, small_world}
use lemon_server.Center.World.{World, Env, terminal_client}
use lemon_server.Handler.Server.{Server, receive}
use lemon_server.Handler.Server.Timeouts.{seconds}

-- A heartbeat time of three seconds, and nothing in the timer, which has run for 62 seconds.
abbrev server : Server World
server = record {
  world = record small_world { heartbeat_time = 3 };
  timer = record { wheel = λ slot. []; current_point = 62 };
  areas = λ i. record { recv_buff = []; recv_size = 0 };
}

accepted_ends_example :
    ((seconds (node quiet) 12 (accept quiet terminal_client server)).world.clients 2).valid ≡ false
accepted_ends_example = accepted_ends quiet terminal_client server (omega arith)

-- A database that refuses the empty id, and no terminal yet.
abbrev strict : Env
strict = record quiet {
  authroize = λ calls id pwd. if is_empty id then (1, [], []) else (0, b'm' ∷ [], []);
}

abbrev fresh : Server World
fresh = record server {
  world = record small_world { client_count = 0; terminal_conn_map = [] };
  areas = λ i. record { recv_buff = replicate 1024 0; recv_size = 0 };
}

-- The authentication request of the terminal "a" with the password "p", up to its CRC, and all of it.
abbrev auth_bytes : Bytes
auth_bytes =
    head_bytes (set_length 27 (init_request 0x0101 false new_head))
    ++ (1 ∷ b'a' ∷ 1 ∷ b'p' ∷ 3 ∷ 0 ∷ 0 ∷ [])

abbrev auth_message : Bytes
auth_message = auth_bytes ++ le_bytes 4 (crc32_code auth_bytes)

abbrev connected : Server World
connected = accept strict terminal_client fresh

abbrev authenticated : Server World
authenticated = receive (node strict) 0 auth_message connected

found : find_terminal_client (b'a' ∷ []) authenticated.world ≡ some 0
unfolding find_terminal_client receive node accept head_bytes set_length verify head_of crc32_code
    code of_code serialize to_memory_chunk
found = refl

strict-RefusesEmpty : RefusesEmpty strict
strict-RefusesEmpty calls pwd = λ e. cc

connects : Reach strict fresh connected
connects = next here (accepts terminal_client fresh (λ e. cc))

open_socket : (connected.world.clients 0).valid ≡ true
unfolding accept
open_socket = refl

is_object : 0 < connected.world.client_count
unfolding accept
is_object = omega arith

authenticates : Reach strict fresh authenticated
authenticates = next connects (receives 0 auth_message connected is_object open_socket)

Reach-find_terminal_client_example :
    ◌≢◌ {A = Bytes} (b'a' ∷ []) []
    × (0 < authenticated.world.client_count)
    × ((authenticated.world.clients 0).role ≡ terminal_client
        → ((authenticated.world.clients 0).valid ≡ true)
          × ((authenticated.world.clients 0).replaced ≡ false)
          × ((authenticated.world.clients 0).gwid ≡ b'a' ∷ []))
Reach-find_terminal_client_example =
    Reach-find_terminal_client strict fresh authenticated (b'a' ∷ []) 0 strict-RefusesEmpty refl
      (λ j. refl) authenticates found
