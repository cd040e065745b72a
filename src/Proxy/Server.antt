-- ===== src/Proxy/Server.antt =====
-- src/proxy/icsproxyserver.cpp: `IcsPorxyServer` as a whole: accepting connections. The constructor and
-- the destructor start and stop what is not modelled.
pub mod Quiet
use lemon_server.Common.{ℕ, Bool, false, Option, none, some}
use lemon_server.Common.Bytes.{Bytes}
use lemon_server.Handler.Server.{Server, Node, new_areas, connection_timeout_handler}
use lemon_server.Proxy.Center
use lemon_server.Proxy.Monad.{M, ◌>>=◌, ◌>>◌, pure, get_world, try_ics}
use lemon_server.Proxy.Registry.{do_error, timeout, find_terminal_client}
use lemon_server.Proxy.Terminal
use lemon_server.Proxy.Terminal.Upgrade.{dispatch}
use lemon_server.Proxy.World.{
  World, Client, Role, proxy_terminal_client, ics_center, Garbage, Env, proxy_host, new_client,
  add_client,
}

-- The new connection object starts with nothing received.
new_object : Role → Garbage → Server World → Server World
unfolding new_areas
new_object role g s = record s {
  world = add_client (new_client role g) s.world;
  areas = new_areas s.world.client_count s.areas;
}

module _ (env : Env) where
  -- The virtual call `handle(request, response)`.
  handle_by : Role → ℕ → M (Unit {0})
  unfolding Terminal.handle Center.handle
  handle_by proxy_terminal_client i = Terminal.handle env i
  handle_by ics_center i = Center.handle env i

  unfoldable pub node : Node World
  unfolding handle_by do_error timeout
  node = record {
    host = proxy_host;
    handle = λ i w. handle_by (w.clients i).role i;
    do_error = do_error;
    timeout = timeout;
    is_valid = λ i w. (w.clients i).valid;
    heartbeat_time = λ w. w.heartbeat_time;
  }

  -- The callback of the terminals' TCP server.
  unfoldable pub accept_terminal : Garbage → Server World → Server World
  unfolding node new_object connection_timeout_handler
  accept_terminal g s =
      connection_timeout_handler node s.world.client_count (new_object proxy_terminal_client g s)

  -- That of the centers' TCP server, which registers no timeout.
  unfoldable pub accept_center : Garbage → Server World → Server World
  unfolding new_object
  accept_center g s = new_object ics_center g s

  sent_to : Option ℕ → M Bool
  unfolding try_ics dispatch
  sent_to none = pure false
  sent_to (some conn) = try_ics (dispatch env conn)

  -- No function calls it.
  unfoldable pub send_to_terminal_client : Bytes → M Bool
  unfolding find_terminal_client sent_to
  send_to_terminal_client con_id = do w ← get_world; sent_to (find_terminal_client con_id w)
