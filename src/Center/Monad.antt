-- ===== src/Center/Monad.antt =====
-- The code of the center server's handlers, on its world.
pub mod Runs
pub mod Declared
pub use lemon_server.Handler.{done, raised}
unfoldable pub use lemon_server.Handler.{
  ◌>>=◌, ◌>>◌, pure, skip, raise, lift_read, lift_move, lift_write, lift_check, get_world, modify,
  get_request, read, read_string, read_long_string, read_time, request_empty, request_rewind,
  request_skip, request_skip_string, write, write_string, write_time, write_bytes, respond,
  respond_to, try_ics, try_both, lift, set_request,
}
use lemon_server.Common.{ℕ, true, List, [], ◌∷◌, ◌++◌, if◌then◌else◌}
use lemon_server.Center.World.{World, Env, set_client}
use lemon_server.Database.{Call, Procedure, SqlValue}
use lemon_server.Handler
use lemon_server.Handler.Host
use lemon_server.Handler.Host.{Host}
use lemon_server.Protocol.Errors.{otl_exception, std_exception, unexpected, Result}
use lemon_server.Protocol.Stream.{Writer}

abbrev pub Scene : Type 0
Scene = Handler.Scene World

abbrev pub Out : Type 0 → Type 0
Out A = Handler.Out World A

abbrev pub M : Type 0 → Type 0
M A = Handler.M World A

abbrev pub center_host : Host World
center_host = record {
  pool = λ w. w.memory_pool;
  set_pool = λ p w. record w { memory_pool = p };
  area = λ i w. (w.clients i).send;
  set_area = λ i a w. set_client i (record (w.clients i) { send = a }) w;
  reset_timeout = λ i w. set_client i (record (w.clients i) { timeout_count = 0 }) w;
}

unfoldable pub new_stream : M Writer
unfolding Host.new_stream
new_stream = Host.new_stream center_host

unfoldable pub release : Writer → World → World
unfolding Host.release
release = Host.release center_host

unfoldable pub build : Writer → Result Writer → M Writer
unfolding Host.build
build = Host.build center_host

unfoldable pub holding : {A : Type 0} → Writer → M A → M A
unfolding Host.holding
holding = Host.holding center_host

unfoldable pub send_on : ℕ → Writer → M (Unit {0})
unfolding Host.send_on
send_on = Host.send_on center_host

-- A handler is declared throw(IcsException, otl_exception): any other exception that leaves it ends the
-- program.
specified : Out (Unit {0}) → Out (Unit {0})
specified (done a s) = done a s
specified (raised std_exception s) =
    raised unexpected (record s { world = record (s.world) { terminated = true } })
specified (raised e s) = raised e s

unfoldable pub only_specified : M (Unit {0}) → M (Unit {0})
unfolding specified
only_specified m s = specified (m s)

module _ (env : Env) where
  -- A statement, executed when its last argument is bound; a failing one throws `otl_exception`.
  unfoldable pub call : Procedure → List SqlValue → M (Unit {0})
  call p args s =
      let c : Call = record { procedure = p; args = args } in
      if env.db_fails s.world.db c
      then raised otl_exception s
      else done tt (record s { world = record (s.world) { db = s.world.db ++ c ∷ [] } })
