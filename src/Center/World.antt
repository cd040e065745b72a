-- ===== src/Center/World.antt =====
-- The state of the center server: the connection objects, the two maps of `IcsLocalServer`, the
-- memory pool, the upgrade files, the connection of the push system, and the statements that the
-- database has executed.
use lemon_server.Common.{ℕ, suc, Bool, true, false, List, [], Option, ◌==◌, if◌then◌else◌}
use lemon_server.Common.Bytes.{Bytes}
unfoldable pub use lemon_server.Common.Maps.{find, insert, erase}
use lemon_server.Connection.Send.{SendArea, new_send_area}
use lemon_server.Database.{Call}
use lemon_server.Files.{FileMap}
use lemon_server.Pool.{MemoryPool}
use lemon_server.Protocol.Errors.{Result}
use lemon_server.Protocol.Stream.{IcsDataTime}

-- The classes that derive from `IcsConnection<icstcp>`.
pub data Role : Type 0 where
  terminal_client web_client remote_proxy_client : Role

-- A connection object: the fields of `IcsConnection` that outlive a call, those of
-- `IcsTerminalClient`, and those of `IcsRemoteProxyClient`. The name is only logged, and the
-- receive area is that of Connection/Receive.
pub record Client : Type 0 where
  pub role : Role
  pub replaced : Bool
  pub valid : Bool
  pub timeout_count : ℕ
  pub send : SendArea
  pub monitor_id : Bytes
  pub gwid : Bytes
  pub device_kind : ℕ
  pub last_bus_serial_num : ℕ
  pub enterprise_id : Bytes
  pub is_legal : Bool
  pub remote_ids : List (Bytes × Bytes)

-- `m_connection` of the push system: whether it is valid, and its send side.
pub record PushConnection : Type 0 where
  pub connected : Bool
  pub send : SendArea

-- A `shared_ptr` to a connection is its address. A map entry is never null after a call returns.
abbrev pub ConnectionMap : Type 0
ConnectionMap = List (Bytes × ℕ)

-- The objects are those below `client_count`; what `clients` has from there on is no object.
pub record World : Type 0 where
  pub clients : ℕ → Client
  pub client_count : ℕ
  pub terminal_conn_map : ConnectionMap
  pub proxy_conn_map : ConnectionMap
  pub memory_pool : MemoryPool
  pub files : FileMap
  pub push : PushConnection
  pub db : List Call
  -- `std::unexpected`: an exception left a function that is not declared to throw it. What the model does
  -- after that is none of the program's.
  pub terminated : Bool
  pub heartbeat_time : ℕ
  pub online_ip : Bytes
  pub online_port : ℕ

-- A new connection object.
abbrev pub new_client : Role → Client
new_client r = record {
  role = r;
  replaced = false;
  valid = true;
  timeout_count = 0;
  send = new_send_area;
  monitor_id = [];
  gwid = [];
  device_kind = 0;
  last_bus_serial_num = 0xffff_ffff;
  enterprise_id = [];
  is_legal = false;
  remote_ids = [];
}

-- How an attempt to connect to a remote proxy server ends: `from_string` throws, the connection is
-- not made, or it is.
pub data Connecting : Type 0 where
  bad_address refused connected : Connecting

-- What is outside of the program: the clock, the outcome of a database call (`true` is an
-- `otl_exception`) and of a query, the conversion of a GB2312 text, and whether the push server's
-- address can be connected to. `enterprise_address` is none where the query has no row, and
-- `stale_port` what the uninitialised `remotePort` then holds. The answers may depend on the statements executed before.
pub record Env : Type 0 where
  pub now : IcsDataTime
  pub clock : ℕ
  pub db_fails : List Call → Call → Bool
  pub authroize : List Call → Bytes → Bytes → ℕ × Bytes × Bytes
  pub progress_stat : List Call → ℕ
  pub file_path : List Call → Bytes
  pub monitoring_point : List Call → Bytes
  pub gb2312_to_utf8 : Bytes → Result Bytes
  pub push_connects : Bool
  pub enterprise_address : List Call → Option (Bytes × ℕ)
  pub stale_port : ℕ
  pub connecting : Bytes → ℕ → Connecting

abbrev pub add_client : Client → World → World
add_client c w = record w {
  clients = λ j. if w.client_count == j then c else w.clients j;
  client_count = suc w.client_count;
}

abbrev pub set_client : ℕ → Client → World → World
set_client i c w = record w { clients = λ j. if i == j then c else w.clients j }
