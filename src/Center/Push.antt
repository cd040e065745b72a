-- ===== src/Center/Push.antt =====
-- src/module/icspushsystem.cpp: `PushSystem`, on the world of the center server.
pub mod Message
pub mod Kept
pub mod Declared
use lemon_server.Common.{true, false, if◌then◌else◌}
use lemon_server.Center.Monad.{M, ◌>>=◌, ◌>>◌, skip, done, raised, get_world, release}
use lemon_server.Center.World.{World, Env, PushConnection}
use lemon_server.Connection.Send.{SendArea, new_send_area, send_message}
use lemon_server.Protocol.Errors.{std_exception, Result, ok, throw}
use lemon_server.Protocol.MessageId.{code, c2p_push_message_0x3001}
use lemon_server.Protocol.Stream.{Writer, init_request}

-- The end of `PushMsgConnection::dispatch`, which is `trySend`.
push_sent : Writer → Result Writer → SendArea → M (Unit {0})
unfolding release
push_sent w (ok w') a s =
    done tt (record s { world = record (s.world) { push = record (s.world.push) { send = a } } })
push_sent w (throw e) a s = raised e (record s {
  world = release w (record (s.world) { push = record (s.world.push) { send = a } });
})

push_dispatch : Writer → M (Unit {0})
unfolding push_sent send_message
push_dispatch w s =
    push_sent w (send_message w s.world.push.send).0 (send_message w s.world.push.send).1 s

module _ (env : Env) where
  -- `reconnect`: the old connection is dropped, with what waited on it.
  reconnect : Writer → M (Unit {0})
  unfolding new_send_area release
  reconnect w s =
      if env.push_connects
      then done tt (record s {
        world = record (s.world) { push = record { connected = true; send = new_send_area } };
      })
      else raised std_exception (record s { world = release w s.world })

  -- `send`
  unfoldable pub push_send : Writer → M (Unit {0})
  unfolding reconnect push_dispatch init_request
  push_send w = do
    v ← get_world
    (if v.push.connected then skip else reconnect w)
    push_dispatch (record w { head = init_request (code c2p_push_message_0x3001) false w.head })
