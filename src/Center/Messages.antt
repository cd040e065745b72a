-- ===== src/Center/Messages.antt =====
-- src/module/icsconnection.hpp: `handleMessage`, for a connection object of the center server.
pub mod Gate
use lemon_server.Common.{ℕ, Bool}
use lemon_server.Common.Bytes.{Bytes}
use lemon_server.Center.Monad.{M, center_host}
use lemon_server.Center.World.{World}
use lemon_server.Handler.Messages

unfoldable pub handle_message : M (Unit {0}) → ℕ → Bytes → World → Bool × World
unfolding Messages.handle_message
handle_message = Messages.handle_message center_host
