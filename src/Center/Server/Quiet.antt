-- ===== src/Center/Server/Quiet.antt =====
-- A connection to the center from which nothing comes.
use lemon_server.Common.{suc, ◌*◌, ◌<◌, ◌≡◌, false}
use lemon_server.Center.Registry.Turns.{
  timeout-gone, timeout-kept, timeout-counted, timeout-heartbeat,
}
use lemon_server.Center.Server.{node, new_object, accept}
use lemon_server.Center.World.{World, Role, Env}
use lemon_server.Handler.Server.{Server}
use lemon_server.Handler.Server.Timeouts.{seconds, registered_ends}
use lemon_server.Handler.Server.Timeouts.Turns.{Times}

module _ (env : Env) where
  times : Times (node env)
  unfolding node
  times = record {
    count = λ i w. (w.clients i).timeout_count;
    gone = timeout-gone env;
    kept = timeout-kept env;
    counted = timeout-counted env;
    heartbeat = timeout-heartbeat env;
  }

  -- A connection that the center accepts when it has a heartbeat time under 64 seconds, whatever
  -- else its timer and its world hold: if the next three times the heartbeat time and one second
  -- bring nothing but the timer's rounds, the connection is then no longer valid.
  pub accepted_ends :
      (role : Role) (s : Server World)
      → s.world.heartbeat_time < 64
      → ((seconds (node env) (3 * suc s.world.heartbeat_time) (accept env role s)).world.clients
          s.world.client_count).valid
        ≡ false
  unfolding accept new_object node
  accepted_ends role s lt =
      registered_ends (node env) times s.world.client_count (new_object role s) lt
