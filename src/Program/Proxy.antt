-- ===== src/Program/Proxy.antt =====
-- src/proxy/server.cpp: `main`, and the constructor of `IcsPorxyServer`, src/proxy/icsproxyserver.cpp.
pub mod Starts
use lemon_server.Common.{ℕ, ◌%◌, ◌^◌, false, []}
use lemon_server.Common.Bytes.{Bytes}
use lemon_server.Config.Access.{Cfg, ◌>>=◌, ◌>>◌, pure, lift, ask_string, ask_int}
use lemon_server.Handler.Server.{Server}
use lemon_server.Pool.{MemoryPool}
use lemon_server.Program.{Machine, prepare, tcp_init}
use lemon_server.Proxy.World.{World, Garbage, new_client, proxy_terminal_client}

-- What stands where no connection object is yet.
abbrev no_object : Garbage
no_object = record { device_kind = 0; send_num = 0; last_bus_serial_num = 0 }

-- The members before the constructor's body, and the heartbeat time. There is no connection object.
abbrev pub new_world : ℕ → MemoryPool → World
new_world heartbeat pool = record {
  clients = λ j. new_client proxy_terminal_client no_object;
  client_count = 0;
  terminal_conn_map = [];
  ics_center_conn_map = [];
  memory_pool = pool;
  files = [];
  terminated = false;
  heartbeat_time = heartbeat;
}

-- The timer's wheel is empty and at its first slot, and no connection has received anything.
abbrev pub new_server : World → Server World
new_server w = record {
  world = w;
  timer = record { wheel = λ slot. []; current_point = 0 };
  areas = λ i. record { recv_buff = []; recv_size = 0 };
}

module _ {A : Type 0} (machine : Machine A) where
  -- `IcsPorxyServer::IcsPorxyServer`
  unfoldable pub construct : Bytes → Bytes → MemoryPool → Cfg (Server World)
  construct terminal_addr ics_center_addr pool = do
    heartbeat ← ask_int "protocol" "heartbeat"
    lift (tcp_init machine terminal_addr)
    lift (tcp_init machine ics_center_addr)
    pure (new_server (new_world (heartbeat % 2 ^ 16) pool))

  -- `main`, from the loaded configuration to the event loop.
  unfoldable pub boot : Cfg (Server World)
  boot = do
    pool ← prepare machine
    terminal_addr ← ask_string "proxyraddr" "terminal"
    center_addr ← ask_string "proxyraddr" "center"
    construct terminal_addr center_addr pool
