-- ===== src/Proxy/Monad.antt =====
-- The code of the proxy server's handlers, on its world.
pub use lemon_server.Handler.{done, raised}
unfoldable pub use lemon_server.Handler.{
  ◌>>=◌, ◌>>◌, pure, skip, raise, lift_read, lift_move, lift_write, lift_check, get_world, modify,
  get_request, read, read_string, read_long_string, read_time, request_empty, request_rewind,
  request_skip, request_skip_string, request_back, write, write_string, write_time, write_bytes,
  respond, respond_to, lift, try_ics,
}
use lemon_server.Common.{ℕ, Bool}
use lemon_server.Handler
use lemon_server.Handler.Host
use lemon_server.Protocol.Errors.{Result}
use lemon_server.Protocol.Stream.{Writer, init_request}
use lemon_server.Proxy.World.{World, proxy_host}

abbrev pub Scene : Type 0
Scene = Handler.Scene World

abbrev pub Out : Type 0 → Type 0
Out A = Handler.Out World A

abbrev pub M : Type 0 → Type 0
M A = Handler.M World A

unfoldable pub new_stream : M Writer
unfolding Host.new_stream
new_stream = Host.new_stream proxy_host

unfoldable pub copy_stream : Writer → M Writer
unfolding Host.copy_stream
copy_stream = Host.copy_stream proxy_host

unfoldable pub build : Writer → Result Writer → M Writer
unfolding Host.build
build = Host.build proxy_host

unfoldable pub holding : {A : Type 0} → Writer → M A → M A
unfolding Host.holding
holding = Host.holding proxy_host

unfoldable pub drop_stream : Writer → M (Unit {0})
unfolding Host.drop_stream
drop_stream = Host.drop_stream proxy_host

unfoldable pub send_on : ℕ → Writer → M (Unit {0})
unfolding Host.send_on
send_on = Host.send_on proxy_host

-- A stream of the handler's own, with its head.
unfoldable pub new_message : ℕ → Bool → M Writer
unfolding new_stream init_request
new_message id need = do w ← new_stream; pure (record w { head = init_request id need w.head })
