-- ===== src/Center/Push/Kept.antt =====
-- The push system changes its own connection and the pool.
use lemon_server.Common.{◌≡◌, refl, Bool, true, false}
use lemon_server.Center.Frame.{Keeps, keeps}
use lemon_server.Center.Monad.{Scene, release}
use lemon_server.Center.Push.{push_sent, push_dispatch, reconnect, push_send}
use lemon_server.Center.World.{Env}
use lemon_server.Connection.Send.{SendArea}
use lemon_server.Protocol.Errors.{Result, ok, throw}
use lemon_server.Protocol.Stream.{Writer}

push_sent-Keeps : (w : Writer) (r : Result Writer) (a : SendArea) → Keeps (push_sent w r a)
unfolding push_sent release
push_sent-Keeps w (ok w') a s = record {
  clients = refl;
  count = refl;
  terminals = refl;
  proxies = refl;
  files = refl;
  terminated = refl;
}
push_sent-Keeps w (throw e) a s = record {
  clients = refl;
  count = refl;
  terminals = refl;
  proxies = refl;
  files = refl;
  terminated = refl;
}

push_dispatch-Keeps : (w : Writer) → Keeps (push_dispatch w)
unfolding push_dispatch
push_dispatch-Keeps w s = push_sent-Keeps w _ _ s

connected-Keeps :
    (env : Env) (b : Bool) (w : Writer) (s : Scene)
    → env.push_connects ≡ b
    → Keeps (reconnect env w)
unfolding reconnect release
connected-Keeps env true w s e t = rw e (record {
  clients = refl;
  count = refl;
  terminals = refl;
  proxies = refl;
  files = refl;
  terminated = refl;
})
connected-Keeps env false w s e t = rw e (record {
  clients = refl;
  count = refl;
  terminals = refl;
  proxies = refl;
  files = refl;
  terminated = refl;
})

reconnect-Keeps : (env : Env) (w : Writer) → Keeps (reconnect env w)
reconnect-Keeps env w s = connected-Keeps env env.push_connects w s refl s

pub Keeps-push_send : (env : Env) (w : Writer) → Keeps (push_send env w)
unfolding push_send
Keeps-push_send env w = search (keeps, reconnect-Keeps, push_dispatch-Keeps) depth 8
