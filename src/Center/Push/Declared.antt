-- ===== src/Center/Push/Declared.antt =====
-- If the push server can be connected to, `send` throws nothing but an `IcsException`.
use lemon_server.Common.{◌≡◌, refl, true, arith}
use lemon_server.Center.Monad.Declared.{Declared, declared, lawful, is_declared}
use lemon_server.Center.Push.{push_sent, push_dispatch, reconnect, push_send}
use lemon_server.Center.World.{Env}
use lemon_server.Connection.Send.{SendArea}
use lemon_server.Handler.Calm.{clean, is_ics, send_message-clean}
use lemon_server.Protocol.Errors.{Result, ok, throw}
use lemon_server.Protocol.Stream.{Writer}

push_sent-Declared :
    (w : Writer) (r : Result Writer) (a : SendArea) → clean r ≡ true → Declared (push_sent w r a)
unfolding push_sent lawful clean is_ics is_declared
push_sent-Declared w (ok w') a h s = refl
push_sent-Declared w (throw e) a h s = ground (arith, h)

push_dispatch-Declared : (w : Writer) → Declared (push_dispatch w)
unfolding push_dispatch
push_dispatch-Declared w s = push_sent-Declared w _ _ (send_message-clean w s.world.push.send) s

module _ (env : Env) (connects : env.push_connects ≡ true) where
  reconnect-Declared : (w : Writer) → Declared (reconnect env w)
  unfolding reconnect lawful
  reconnect-Declared w s = rw connects refl

  pub push_send-Declared : (w : Writer) → Declared (push_send env w)
  unfolding push_send
  push_send-Declared w = search (declared, reconnect-Declared, push_dispatch-Declared) depth 10
