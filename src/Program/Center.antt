-- ===== src/Program/Center.antt =====
-- src/center/server.cpp: `main`, and the constructor of `IcsLocalServer`, src/center/icslocalserver.cpp.
pub mod Starts
use lemon_server.Common.{ℕ, ◌%◌, ◌^◌, true, false, [], if◌then◌else◌}
use lemon_server.Common.Bytes.{Bytes}
use lemon_server.Address.{endpoint}
use lemon_server.Center.Server.{clear_connection_info, server_onoff_line}
use lemon_server.Center.World.{World, Env, new_client, terminal_client}
use lemon_server.Config.Access.{Cfg, ◌>>=◌, ◌>>◌, pure, lift, ask_string, ask_int}
use lemon_server.Connection.Send.{new_send_area}
use lemon_server.Handler.Server.{Server}
use lemon_server.Pool.{MemoryPool}
use lemon_server.Program.{Machine, prepare, open_database, tcp_init}
use lemon_server.Protocol.Errors.{std_exception, Result, ok, throw}

-- The members before the constructor's body, of which `m_onlinePort` and `m_heartbeatTime` are not
-- initialised. There is no connection object.
abbrev pub new_world : ℕ → ℕ → MemoryPool → World
new_world port heartbeat pool = record {
  clients = λ j. new_client terminal_client;
  client_count = 0;
  terminal_conn_map = [];
  proxy_conn_map = [];
  memory_pool = pool;
  files = [];
  push = record { connected = true; send = new_send_area };
  db = [];
  terminated = false;
  heartbeat_time = heartbeat;
  online_ip = [];
  online_port = port;
}

-- The timer's wheel is empty and at its first slot, and no connection has received anything.
abbrev pub new_server : World → Server World
new_server w = record {
  world = w;
  timer = record { wheel = λ slot. []; current_point = 0 };
  areas = λ i. record { recv_buff = []; recv_size = 0 };
}

module _ {A : Type 0} (machine : Machine A) (env : Env) (stale_port stale_heartbeat : ℕ) where
  unfoldable pub connected_push : Result (Unit {0})
  connected_push = if env.push_connects then ok tt else throw std_exception

  -- `PushSystem::PushSystem`
  unfoldable pub push_init : Bytes → Cfg (Unit {0})
  push_init addr = lift (endpoint machine.from_string addr) >>= λ e. lift connected_push

  -- `IcsLocalServer::IcsLocalServer`
  unfoldable pub construct : Bytes → Bytes → Bytes → MemoryPool → Cfg (Server World)
  construct terminal_addr web_addr push_addr pool = do
    push_init push_addr
    w ← lift (clear_connection_info env (new_world stale_port stale_heartbeat pool))
    online_ip ← ask_string "protocol" "onlineIP"
    online_port ← ask_int "protocol" "onlinePort"
    heartbeat ← ask_int "protocol" "heartbeat"
    lift (tcp_init machine terminal_addr)
    lift (tcp_init machine web_addr)
    w ← lift (
        server_onoff_line env 1 (record w {
          online_ip = online_ip;
          online_port = online_port;
          heartbeat_time = heartbeat % 2 ^ 16;
        }))
    pure (new_server w)

  -- `main`, from the loaded configuration to the event loop.
  unfoldable pub boot : Cfg (Server World)
  boot = do
    pool ← prepare machine
    username ← ask_string "database" "username"
    password ← ask_string "database" "password"
    dsn ← ask_string "database" "dsn"
    lift (open_database machine username password dsn)
    terminal_addr ← ask_string "centeraddr" "terminal"
    web_addr ← ask_string "centeraddr" "web"
    push_addr ← ask_string "centeraddr" "msgpush"
    construct terminal_addr web_addr push_addr pool
