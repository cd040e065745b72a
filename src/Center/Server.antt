-- ===== src/Center/Server.antt =====
-- src/center/icslocalserver.cpp: `IcsLocalServer` as a whole: accepting connections, and the
-- statements of the constructor and the destructor. The constructor is in Program/Center.
mod Tests
pub mod Quiet
pub mod Routing
use lemon_server.Common.{ℕ, ◌%◌, ◌^◌, List, [], ◌∷◌, ◌++◌, if◌then◌else◌}
use lemon_server.Common.Bytes.{Bytes}
use lemon_server.Center.Monad.{M, center_host}
use lemon_server.Center.Registry.{do_error, timeout}
use lemon_server.Center.RemoteProxy
use lemon_server.Center.Terminal
use lemon_server.Center.Web
use lemon_server.Center.World.{
  World, Client, Role, terminal_client, web_client, remote_proxy_client, Env, new_client,
  add_client,
}
use lemon_server.Database.{
  Call, SqlValue, Procedure, sp_clear_connection_info, sp_server_onoff_line, text, int,
}
use lemon_server.Handler.Server.{Server, Node, new_areas, connection_timeout_handler}
use lemon_server.Protocol.Errors.{otl_exception, Result, ok, throw, ◌>>=◌}

-- The new connection object starts with nothing received.
new_object : Role → Server World → Server World
unfolding new_areas
new_object role s = record s {
  world = add_client (new_client role) s.world;
  areas = new_areas s.world.client_count s.areas;
}

module _ (env : Env) where
  -- The virtual call `handle(request, response)`.
  handle_by : Role → ℕ → M (Unit {0})
  unfolding Terminal.handle Web.handle RemoteProxy.handle
  handle_by terminal_client i = Terminal.handle env i
  handle_by web_client i = Web.handle env
  handle_by remote_proxy_client i = RemoteProxy.handle env i

  unfoldable pub node : Node World
  unfolding handle_by do_error timeout
  node = record {
    host = center_host;
    handle = λ i w. handle_by (w.clients i).role i;
    do_error = do_error env;
    timeout = timeout env;
    is_valid = λ i w. (w.clients i).valid;
    heartbeat_time = λ w. w.heartbeat_time;
  }

  -- The callbacks of both TCP servers.
  unfoldable pub accept : Role → Server World → Server World
  unfolding node new_object connection_timeout_handler
  accept role s = connection_timeout_handler node s.world.client_count (new_object role s)

  -- A statement of the constructor or destructor.
  unfoldable pub statement : Procedure → List SqlValue → World → Result World
  statement p args w =
      let c : Call = record { procedure = p; args = args } in
      if env.db_fails w.db c then throw otl_exception else ok (record w { db = w.db ++ c ∷ [] })

  unfoldable pub clear_connection_info : World → Result World
  unfolding statement
  clear_connection_info w =
      statement sp_clear_connection_info (text w.online_ip ∷ int w.online_port ∷ []) w

  unfoldable pub server_onoff_line : ℕ → World → Result World
  unfolding statement
  server_onoff_line stat w =
      statement sp_server_onoff_line (text w.online_ip ∷ int w.online_port ∷ int stat ∷ []) w

  -- The destructor. It may not throw: a failing statement terminates the program.
  unfoldable pub shut_down : World → Result World
  unfolding server_onoff_line clear_connection_info
  shut_down w = do
    w ← server_onoff_line 2 w
    clear_connection_info (record w { terminal_conn_map = []; proxy_conn_map = [] })
