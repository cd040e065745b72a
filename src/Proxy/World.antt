-- ===== src/Proxy/World.antt =====
-- The state of the proxy server: the connection objects, the map of terminals and the set of centers of
-- `IcsPorxyServer`, the memory pool and the upgrade files.
use lemon_server.Common.{ℕ, suc, Bool, true, false, List, [], Option, ◌==◌, if◌then◌else◌}
use lemon_server.Common.Bytes.{Bytes}
use lemon_server.Connection.Send.{SendArea, new_send_area}
use lemon_server.Files.{FileMap}
use lemon_server.Handler.Host.{Host}
use lemon_server.Pool.{MemoryPool}
use lemon_server.Protocol.Errors.{Exception, Result}
use lemon_server.Protocol.Stream.{IcsDataTime}

-- The classes that derive from `IcsConnection<icstcp>`.
pub data Role : Type 0 where
  proxy_terminal_client ics_center : Role

-- A connection object: the fields of `IcsConnection` that outlive a call, and those of
-- `IcsProxyTerminalClient`. The name is only logged, and the receive area is that of the server.
pub record Client : Type 0 where
  pub role : Role
  pub replaced : Bool
  pub valid : Bool
  pub timeout_count : ℕ
  pub send : SendArea
  pub gwid : Bytes
  pub device_kind : ℕ
  pub send_num : ℕ
  pub last_bus_serial_num : ℕ

-- A `shared_ptr` to a connection is its address. The set of centers is in the order in which it is
-- gone through. The objects are those below `client_count`.
pub record World : Type 0 where
  pub clients : ℕ → Client
  pub client_count : ℕ
  pub terminal_conn_map : List (Bytes × ℕ)
  pub ics_center_conn_map : List ℕ
  pub memory_pool : MemoryPool
  pub files : FileMap
  -- `std::unexpected`: an exception left a function that is declared `throw()`.
  pub terminated : Bool
  pub heartbeat_time : ℕ

-- What the memory of a new object holds in the fields that the constructor leaves alone.
pub record Garbage : Type 0 where
  pub device_kind : ℕ
  pub send_num : ℕ
  pub last_bus_serial_num : ℕ

abbrev pub new_client : Role → Garbage → Client
new_client r g = record {
  role = r;
  replaced = false;
  valid = true;
  timeout_count = 0;
  send = new_send_area;
  gwid = [];
  device_kind = g.device_kind;
  send_num = g.send_num;
  last_bus_serial_num = g.last_bus_serial_num;
}

-- What is outside of the program: the clock, the conversion of a GB2312 text, the file system and
-- the configured directory in it, and the text of an exception.
pub record Env : Type 0 where
  pub now : IcsDataTime
  pub clock : ℕ
  pub gb2312_to_utf8 : Bytes → Result Bytes
  pub open_file : Bytes → Option Bytes
  pub filedir : Bytes
  pub message : Exception → Bytes

abbrev pub set_client : ℕ → Client → World → World
set_client i c w = record w { clients = λ j. if i == j then c else w.clients j }

abbrev pub add_client : Client → World → World
add_client c w = record w {
  clients = λ j. if w.client_count == j then c else w.clients j;
  client_count = suc w.client_count;
}

-- Assignments to the members of an object.
abbrev pub change_client : ℕ → (Client → Client) → World → World
change_client i f w = set_client i (f (w.clients i)) w

abbrev pub proxy_host : Host World
proxy_host = record {
  pool = λ w. w.memory_pool;
  set_pool = λ p w. record w { memory_pool = p };
  area = λ i w. (w.clients i).send;
  set_area = λ i a w. change_client i (λ c. record c { send = a }) w;
  reset_timeout = λ i w. change_client i (λ c. record c { timeout_count = 0 }) w;
}
