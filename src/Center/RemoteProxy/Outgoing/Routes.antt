-- ===== src/Center/RemoteProxy/Outgoing/Routes.antt =====
-- What is sent to a remote proxy server changes no route.
use lemon_server.Common.{ℕ, Bool}
use lemon_server.Common.Bytes.{Bytes}
use lemon_server.Center.RemoteProxy.Outgoing.{
  new_message, plain_body, upgrade_body, with_path, forward_body, dispatch, request_authrize,
}
use lemon_server.Center.Routing.{route}
use lemon_server.Center.Routing.Keeps.{
  call-Fixed, new_stream-Fixed, build-Fixed, holding-Fixed, send_on-Fixed,
}
use lemon_server.Center.World.{Env}
use lemon_server.Handler.Fixed.{Fixed, fixed}
use lemon_server.Protocol.Stream.{Writer}

new_message-Fixed : (id : ℕ) (need : Bool) → Fixed route (new_message id need)
unfolding new_message
new_message-Fixed id need = search (fixed, new_stream-Fixed) depth 20

plain_body-Fixed : (w : Writer) → Fixed route (plain_body w)
unfolding plain_body
plain_body-Fixed w = search fixed depth 20

upgrade_body-Fixed : (path : Bytes) (w : Writer) → Fixed route (upgrade_body path w)
unfolding upgrade_body
upgrade_body-Fixed path w = search fixed depth 20

module _ (env : Env) where
  with_path-Fixed : (id : Bytes) (w : Writer) → Fixed route (with_path env id w)
  unfolding with_path
  with_path-Fixed id w = search (fixed, call-Fixed, upgrade_body-Fixed) depth 20

  forward_body-Fixed : (w : Writer) → Fixed route (forward_body env w)
  unfolding forward_body
  forward_body-Fixed w = search (fixed, with_path-Fixed, plain_body-Fixed) depth 20

  pub dispatch-Fixed : (self : ℕ) → Fixed route (dispatch env self)
  unfolding dispatch
  dispatch-Fixed self =
      search (fixed, new_message-Fixed, holding-Fixed, forward_body-Fixed, send_on-Fixed) depth 20

  pub request_authrize-Fixed : (self : ℕ) → Fixed route (request_authrize env self)
  unfolding request_authrize
  request_authrize-Fixed self =
      search (fixed, new_message-Fixed, build-Fixed, send_on-Fixed) depth 20
