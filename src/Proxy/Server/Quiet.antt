-- ===== src/Proxy/Server/Quiet.antt =====
-- A terminal's connection to the proxy server from which nothing comes.
use lemon_server.Common.{suc, ◌*◌, ◌<◌, ◌≡◌, false}
use lemon_server.Handler.Server.{Server}
use lemon_server.Handler.Server.Timeouts.{seconds, registered_ends}
use lemon_server.Handler.Server.Timeouts.Turns.{Times}
use lemon_server.Proxy.Registry.Turns.{
  timeout-gone, timeout-kept, timeout-counted, timeout-heartbeat,
}
use lemon_server.Proxy.Server.{node, new_object, accept_terminal}
use lemon_server.Proxy.World.{World, Env, Garbage, proxy_terminal_client}

module _ (env : Env) where
  times : Times (node env)
  unfolding node
  times = record {
    count = λ i w. (w.clients i).timeout_count;
    gone = timeout-gone;
    kept = timeout-kept;
    counted = timeout-counted;
    heartbeat = timeout-heartbeat;
  }

  -- A terminal's connection that the proxy server accepts when it has a heartbeat time under 64
  -- seconds, whatever else its timer and its world hold: if the next three times the heartbeat
  -- time and one second bring nothing but the timer's rounds, the connection is then no longer
  -- valid.
  pub accepted_terminal_ends :
      (g : Garbage) (s : Server World)
      → s.world.heartbeat_time < 64
      → ((seconds
            (node env)
            (3 * suc s.world.heartbeat_time)
            (accept_terminal env g s)).world.clients
          s.world.client_count).valid
        ≡ false
  unfolding accept_terminal new_object node
  accepted_terminal_ends g s lt =
      registered_ends (node env) times s.world.client_count (new_object proxy_terminal_client g s)
        lt
