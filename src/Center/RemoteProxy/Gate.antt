-- ===== src/Center/RemoteProxy/Gate.antt =====
-- What a remote proxy server can do before its connection is accepted.
use lemon_server.Common.{ℕ, ◌≡◌, ◌≢◌, sym, ◌∙◌, ap, false, arith}
use lemon_server.Common.Bytes.{Bytes}
use lemon_server.Center.Messages.{handle_message}
use lemon_server.Center.Messages.Gate.{
  Untouched, Untouched-refl, reset-Untouched, pool-Untouched, reset_timeout,
}
use lemon_server.Center.Monad.{center_host, Scene, raised}
use lemon_server.Center.RemoteProxy.{handle}
use lemon_server.Center.World.{World, Env}
use lemon_server.Handler.Messages.Refusal.{Refusal, message-Refused, new_reader-head}
use lemon_server.Protocol.Errors.{must_authrize}
use lemon_server.Protocol.Head.{IcsMsgHead, head_of, is_response}
use lemon_server.Protocol.MessageId.{code, c2c_auth_response_0x4002}
use lemon_server.Protocol.Stream.{Reader}

reset_is_legal :
    (i : ℕ) (w : World) → ((reset_timeout i w).clients i).is_legal ≡ (w.clients i).is_legal
reset_is_legal i w = ground arith

module _ (env : Env) (self : ℕ) where
  abbrev Stopped : Reader → World → Type 0
  Stopped r w = ((w.clients self).is_legal ≡ false) × (r.head.id ≢ code c2c_auth_response_0x4002)

  stopped : (s : Scene) → Stopped s.request s.world → handle env self s ≡ raised must_authrize s
  unfolding handle
  stopped s (illegal, other) = ground arith

  refusal : Refusal center_host (handle env self) self Stopped Untouched
  refusal = record {
    stops = λ s stop. (must_authrize, stopped s stop);
    stop_pool = λ r p w stop. stop;
    stop_reset = λ r w stop. (reset_is_legal self w ∙ stop.0, stop.1);
    calm_refl = Untouched-refl;
    calm_pool = pool-Untouched;
    calm_reset = reset-Untouched self;
  }

  -- A remote proxy server whose connection is not accepted, and whatever bytes come from it as a
  -- message, if their head has another id than that of an authentication response and is not
  -- marked as a response: the message is not handled (the connection is to be closed), and nothing
  -- has changed but the timeout counts and the memory pool.
  pub unaccepted_lem :
      (buf : Bytes) (w : World)
      → (w.clients self).is_legal ≡ false
      → (head_of buf).id ≢ code c2c_auth_response_0x4002
      → is_response (head_of buf) ≡ false
      → ((handle_message (handle env self) self buf w).0 ≡ false)
        × Untouched w (handle_message (handle env self) self buf w).1
  unfolding handle_message
  unaccepted_lem buf w illegal other request =
      message-Refused center_host (handle env self) self Stopped Untouched refusal buf w λ r e.
        let head = new_reader-head buf r e in
        (
          ap is_response head ∙ request,
          (illegal, λ same. other (ap (λ (h : IcsMsgHead). h.id) (sym head) ∙ same)),
        )
