-- ===== src/Proxy/Terminal/Gate.antt =====
-- What a terminal can do at the proxy server before it is authenticated.
use lemon_server.Common.{
  ℕ, [], ◌≡◌, ◌≢◌, refl, sym, ◌∙◌, ap, false, ◌==◌, ==_iff, arith, Bool-cases, inl, inr,
}
use lemon_server.Common.Bytes.{Bytes}
use lemon_server.Handler.Messages.{handle_message}
use lemon_server.Handler.Messages.Refusal.{Refusal, message-Refused, new_reader-head}
use lemon_server.Pool.{MemoryPool}
use lemon_server.Protocol.Errors.{must_authrize}
use lemon_server.Protocol.Head.{IcsMsgHead, head_of, is_response}
use lemon_server.Protocol.MessageId.{code, t2c_auth_request_0x0101}
use lemon_server.Protocol.Stream.{Reader}
use lemon_server.Proxy.Monad.{Scene, raised}
use lemon_server.Proxy.Terminal.{handle}
use lemon_server.Proxy.World.{World, Env, proxy_host}

abbrev reset_timeout : ℕ → World → World
reset_timeout = proxy_host.reset_timeout

-- `w` is `v` but for the memory pool and the timeout counts.
pub record Untouched (v w : World) : Type 0 where
  pub terminals : v.terminal_conn_map ≡ w.terminal_conn_map
  pub centers : v.ics_center_conn_map ≡ w.ics_center_conn_map
  pub files : v.files ≡ w.files
  pub terminated : v.terminated ≡ w.terminated
  pub clients :
      (j : ℕ)
      → record (v.clients j) { timeout_count = 0 } ≡ record (w.clients j) { timeout_count = 0 }

Untouched-refl : (w : World) → Untouched w w
Untouched-refl w = record {
  terminals = refl;
  centers = refl;
  files = refl;
  terminated = refl;
  clients = λ j. refl;
}

reset-Untouched : (i : ℕ) (w : World) → Untouched w (reset_timeout i w)
reset-Untouched i w = record {
  terminals = refl;
  centers = refl;
  files = refl;
  terminated = refl;
  clients = λ j. elim (Bool-cases (i == j)) [
    | inl same ↦
        rw same
          (ap (λ (k : ℕ). record (w.clients k) { timeout_count = 0 }) (sym ((==_iff i j).0 same)))
    | inr other ↦ rw other refl
  ];
}

pool-Untouched :
    (p : MemoryPool) (v w : World) → Untouched v w → Untouched v (record w { memory_pool = p })
pool-Untouched p v w h = record {
  terminals = h.terminals;
  centers = h.centers;
  files = h.files;
  terminated = h.terminated;
  clients = h.clients;
}

reset_gwid : (i : ℕ) (w : World) → ((reset_timeout i w).clients i).gwid ≡ (w.clients i).gwid
reset_gwid i w = ground arith

module _ (env : Env) (self : ℕ) where
  -- A request that is not to be handled.
  abbrev Stopped : Reader → World → Type 0
  Stopped r w = ((w.clients self).gwid ≡ []) × (r.head.id ≢ code t2c_auth_request_0x0101)

  stopped : (s : Scene) → Stopped s.request s.world → handle env self s ≡ raised must_authrize s
  unfolding handle
  stopped s (no_gwid, other) = ground arith

  refusal : Refusal proxy_host (handle env self) self Stopped Untouched
  refusal = record {
    stops = λ s stop. (must_authrize, stopped s stop);
    stop_pool = λ r p w stop. stop;
    stop_reset = λ r w stop. (reset_gwid self w ∙ stop.0, stop.1);
    calm_refl = Untouched-refl;
    calm_pool = pool-Untouched;
    calm_reset = reset-Untouched self;
  }

  -- A terminal of the proxy server that is not authenticated, and whatever bytes come from it as a
  -- message, if their head has another id than that of an authentication request and is not
  -- marked as a response: the message is not handled (the connection is to be closed), and nothing
  -- has changed but the timeout counts and the memory pool, so no center is told of it.
  pub unnamed_lem :
      (buf : Bytes) (w : World)
      → (w.clients self).gwid ≡ []
      → (head_of buf).id ≢ code t2c_auth_request_0x0101
      → is_response (head_of buf) ≡ false
      → ((handle_message proxy_host (handle env self) self buf w).0 ≡ false)
        × Untouched w (handle_message proxy_host (handle env self) self buf w).1
  unnamed_lem buf w no_gwid other request =
      message-Refused proxy_host (handle env self) self Stopped Untouched refusal buf w λ r e.
        let head = new_reader-head buf r e in
        (
          ap is_response head ∙ request,
          (no_gwid, λ same. other (ap (λ (h : IcsMsgHead). h.id) (sym head) ∙ same)),
        )
