-- ===== src/Center/Registry.antt =====
-- src/center/icslocalserver.cpp: the maps of `IcsLocalServer`, and the virtual `error()` with its callers
-- in src/module/icsconnection.hpp. None of these throws.
pub mod Destruction
pub mod Ownership
pub mod Removal
pub mod Routes
pub mod Turns
use lemon_server.Common.{
  ℕ, ◌+◌, Bool, true, false, not, ◌&&◌, List, [], ◌∷◌, ◌++◌, Option, none, some, ltb, if◌then◌else◌,
}
use lemon_server.Common.Bytes.{Bytes, is_empty}
use lemon_server.Center.World.{
  World, Client, Role, terminal_client, web_client, remote_proxy_client, Env, ConnectionMap, find,
  insert, erase, set_client,
}
use lemon_server.Database.{Call, Procedure, sp_offline, sp_remote_proxy_onoff_line, text, int}

-- m_timeoutMax
abbrev timeout_max : ℕ
timeout_max = 2

unfoldable pub find_terminal_client : Bytes → World → Option ℕ
find_terminal_client gwid w = find gwid w.terminal_conn_map

unfoldable pub remove_terminal_client : Bytes → World → World
remove_terminal_client gwid w = record w { terminal_conn_map = erase gwid w.terminal_conn_map }

unfoldable pub find_remote_proxy : Bytes → World → Option ℕ
find_remote_proxy id w = find id w.proxy_conn_map

unfoldable pub add_remote_proxy : Bytes → ℕ → World → World
add_remote_proxy id conn w = record w { proxy_conn_map = insert id conn w.proxy_conn_map }

unfoldable pub remove_remote_proxy : Bytes → World → World
remove_remote_proxy id w = record w { proxy_conn_map = erase id w.proxy_conn_map }

module _ (env : Env) where
  -- A statement whose `otl_exception` is caught and logged.
  call_caught : Call → World → World
  call_caught c w = if env.db_fails w.db c then w else record w { db = w.db ++ c ∷ [] }

  -- A statement in a function that may not throw.
  call_unexpected : Call → World → World
  call_unexpected c w =
      if env.db_fails w.db c
      then record w { terminated = true }
      else record w { db = w.db ++ c ∷ [] }

  pub offline_call : Bytes → World → Call
  offline_call id w = record {
    procedure = sp_offline;
    args = text id ∷ text w.online_ip ∷ int w.online_port ∷ [];
  }

  -- `IcsTerminalClient::error`
  unfoldable pub terminal_error : ℕ → World → World
  unfolding call_caught offline_call remove_terminal_client
  terminal_error i w =
      let c = w.clients i in
      if not c.replaced && not (is_empty c.gwid)
      then set_client i (record c { gwid = [] })
          (call_caught (offline_call c.gwid w) (remove_terminal_client c.gwid w))
      else w

  proxy_offline_call : Bytes → Call
  proxy_offline_call id = record {
    procedure = sp_remote_proxy_onoff_line;
    args = text id ∷ int 2 ∷ text [] ∷ int 0 ∷ [];
  }

  -- `IcsRemoteProxyClient::error`. If its statement throws, the program is terminated.
  unfoldable pub remote_proxy_error : ℕ → World → World
  unfolding call_unexpected proxy_offline_call remove_remote_proxy
  remote_proxy_error i w =
      let c = w.clients i in
      let w' = remove_remote_proxy c.enterprise_id w in
      if is_empty c.enterprise_id
      then w
      else set_client i (record c { enterprise_id = [] })
          (if c.is_legal then call_unexpected (proxy_offline_call c.enterprise_id) w' else w')

  -- `~IcsTerminalClient`, also that of the connection of a remote proxy server. A destructor may not
  -- throw.
  unfoldable pub destroy : ℕ → World → World
  unfolding call_unexpected offline_call
  destroy i w =
      let c = w.clients i in
      if not c.replaced && not (is_empty c.monitor_id)
      then call_unexpected (offline_call c.monitor_id w) w
      else w

  -- The virtual call `error()`.
  unfoldable pub error_by : Role → ℕ → World → World
  unfolding terminal_error remote_proxy_error
  error_by terminal_client i w = terminal_error i w
  error_by web_client i w = w
  error_by remote_proxy_client i w = remote_proxy_error i w

  -- `do_error`; closing the socket changes nothing here.
  unfoldable pub do_error : ℕ → World → World
  unfolding error_by
  do_error i w =
      let c = w.clients i in
      if c.valid then error_by c.role i (set_client i (record c { valid = false }) w) else w

  -- `replaced`
  unfoldable pub replace : ℕ → World → World
  unfolding do_error
  replace i w = do_error i (set_client i (record (w.clients i) { replaced = true }) w)

  replace_old : Option ℕ → World → World
  unfolding replace
  replace_old none w = w
  replace_old (some old) w = replace old w

  -- `addTerminalClient`
  unfoldable pub add_terminal_client : Bytes → ℕ → World → World
  unfolding replace_old
  add_terminal_client gwid conn w =
      let w' = replace_old (find gwid w.terminal_conn_map) w in
      record w' { terminal_conn_map = insert gwid conn w'.terminal_conn_map }

  -- `timeout`: the new world; its result is whether the connection is valid there.
  unfoldable pub timeout : ℕ → World → World
  unfolding do_error
  timeout i w =
      let c = w.clients i in
      let w' = set_client i (record c { timeout_count = c.timeout_count + 1 }) w in
      if c.valid then (if ltb timeout_max (c.timeout_count + 1) then do_error i w' else w') else w
