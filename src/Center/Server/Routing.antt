-- ===== src/Center/Server/Routing.antt =====
-- From one event to the next, in the center server: which connection a gateway id leads to.
use lemon_server.Common.{
  ℕ, ◌<◌, ◌≡◌, ◌≢◌, refl, sym, ap, ==_iff, arith, true, false, [], none, some, ◌==◌, if◌then◌else◌,
}
use mathlib.Core.Path.{subst}
use lemon_server.Common.Bytes.{Bytes}
use lemon_server.Center.Monad.{center_host}
use lemon_server.Center.Registry.{find_terminal_client}
use lemon_server.Center.Registry.Routes.{do_error-Routed, timeout-Routed}
use lemon_server.Center.RemoteProxy.Routes
use lemon_server.Center.Routing.{Routed, Session, core_of, route}
use lemon_server.Center.Routing.Changes.{Route-ext, added-Routed}
use lemon_server.Center.Routing.Keeps.{pool-route, area-route, set_client-route}
use lemon_server.Center.Server.{node, accept, handle_by, new_object}
use lemon_server.Center.Terminal.Auth.Routes.{RefusesEmpty}
use lemon_server.Center.Terminal.Routes as TerminalRoutes
use lemon_server.Center.Web.Routes as WebRoutes
use lemon_server.Center.World.{
  World, ConnectionMap, Role, terminal_client, web_client, remote_proxy_client, Env, find,
  new_client,
}
use lemon_server.Handler.Leads.{Leads}
use lemon_server.Handler.Messages.{handle_message}
use lemon_server.Handler.Messages.Kept.{handle_message_lem}
use lemon_server.Handler.Server.{
  Server, receive, send_completed, failed, second, connection_timeout_handler,
}
use lemon_server.Handler.Server.Kept.{receive_lem, failed_lem, send_completed_lem, second_lem}

-- One event: a TCP server accepts a connection of its class; bytes come in on a connection whose
-- socket is open; a send completes; a receive or a send fails; the timer's thread makes a round. Where a
-- remote proxy server's connection has received a forwarded message, its buffer holds other bytes
-- than `receive` leaves there, as `handleTerminalMessage` writes into it.
pub data Step (env : Env) : Server World → Server World → Type 0 where
  accepts :
      (role : Role) (s : Server World) → role ≢ remote_proxy_client → Step env s (accept env role s)
  receives :
      (i : ℕ) (bytes : Bytes) (s : Server World)
      → i < s.world.client_count
      → (s.world.clients i).valid ≡ true
      → Step env s (receive (node env) i bytes s)
  sends : (i : ℕ) (s : Server World) → Step env s (send_completed (node env) i s)
  fails : (i : ℕ) (s : Server World) → Step env s (failed (node env) i s)
  ticks : (s : Server World) → Step env s (second (node env) s)
  overwrites :
      (i : ℕ) (buff : Bytes) (s : Server World)
      → (s.world.clients i).role ≡ remote_proxy_client
      → Step env s (record s {
        areas = λ j. if i == j then record (s.areas j) { recv_buff = buff } else s.areas j;
      })

pub data Reach (env : Env) (start : Server World) : Server World → Type 0 where
  here : Reach env start start
  next : {s t : Server World} → Reach env start s → Step env s t → Reach env start t

module _ (env : Env) where
  abbrev Fine : Server World → Type 0
  Fine s = Routed (route s.world)

  handle_by_lem :
      (role : Role) (i : ℕ)
      → RefusesEmpty env
      → Leads route (Session role i) (Session role i) (handle_by env role i)
  unfolding handle_by
  handle_by_lem terminal_client i refuses = TerminalRoutes.handle_lem env terminal_client i refuses
  handle_by_lem web_client i refuses = WebRoutes.handle_lem env web_client i (λ e. cc)
  handle_by_lem remote_proxy_client i refuses = Routes.handle_lem env remote_proxy_client i refuses

  reset-route : (i : ℕ) (w : World) → route (center_host.reset_timeout i w) ≡ route w
  reset-route i w = set_client-route i (record (w.clients i) { timeout_count = 0 }) w refl

  message_lem :
      (role : Role) (i : ℕ)
      → RefusesEmpty env
      → (m : Bytes) (w : World) → Session role i (route w)
      → Session role i (route (handle_message center_host (handle_by env role i) i m w).1)
  message_lem role i refuses =
      handle_message_lem route center_host pool-route area-route reset-route (Session role i)
        (handle_by env role i) i (handle_by_lem role i refuses)

  pub receive-Fine :
      RefusesEmpty env
      → (i : ℕ) (bytes : Bytes) (s : Server World) → i < s.world.client_count
      → (s.world.clients i).valid ≡ true
      → Fine s
      → Fine (receive (node env) i bytes s)
  unfolding node
  receive-Fine refuses i bytes s lt valid h =
      receive_lem (node env) (λ w. Routed (route w)) (do_error-Routed env)
        (λ w. Session (s.world.clients i).role i (route w)) i bytes s (λ w x. x.routed)
        (message_lem (s.world.clients i).role i refuses)
        (record { routed = h; object = lt; class = refl; valid = λ t. valid })

  accept-Fine : (role : Role) (s : Server World) → Fine s → Fine (accept env role s)
  unfolding accept new_object connection_timeout_handler
  accept-Fine role s h =
      subst Routed (sym (Route-ext (λ j. ground (arith, ==_iff s.world.client_count j)) refl refl))
        (added-Routed (core_of (new_client role)) (route s.world) h refl)

  sends-Fine : (i : ℕ) (s : Server World) → Fine s → Fine (send_completed (node env) i s)
  unfolding node
  sends-Fine i s h =
      send_completed_lem (node env) (λ w. Routed (route w)) (λ p w x. x)
        (λ j a w x. subst Routed (sym (area-route j a w)) x) i s h

  fails-Fine : (i : ℕ) (s : Server World) → Fine s → Fine (failed (node env) i s)
  unfolding node
  fails-Fine i s h = failed_lem (node env) (λ w. Routed (route w)) (do_error-Routed env) i s h

  ticks-Fine : (s : Server World) → Fine s → Fine (second (node env) s)
  unfolding node
  ticks-Fine s h = second_lem (node env) (λ w. Routed (route w)) (timeout-Routed env) s h

  Step-Fine : RefusesEmpty env → (s t : Server World) → Step env s t → Fine s → Fine t
  Step-Fine refuses s t (accepts role _ other) h = accept-Fine role s h
  Step-Fine refuses s t (receives i bytes _ lt valid) h = receive-Fine refuses i bytes s lt valid h
  Step-Fine refuses s t (sends i _) h = sends-Fine i s h
  Step-Fine refuses s t (fails i _) h = fails-Fine i s h
  Step-Fine refuses s t (ticks _) h = ticks-Fine s h
  Step-Fine refuses s t (overwrites i buff _ proxy) h = h

  Reach-Fine : RefusesEmpty env → (start s : Server World) → Fine start → Reach env start s → Fine s
  Reach-Fine refuses start s h here = h
  Reach-Fine refuses start t h (next {s} before step) =
      Step-Fine refuses s t step (Reach-Fine refuses start s h before)

  -- The center starts with no connection in its map of terminals, and no object marked as replaced;
  -- the database refuses the empty id. After any sequence of events: connections accepted, bytes
  -- received on connections whose socket is open, sends completed, receives and sends that failed,
  -- rounds of the timer, and writes into the buffers of remote proxy servers' connections, a gateway id that the map has is not empty, and leads to an object of
  -- the server. If that is a terminal's own connection, and not that of a remote proxy server, it is
  -- valid, it is not replaced, and its gateway id is the one that was looked up.
  pub Reach-find_terminal_client :
      (start s : Server World) (g : Bytes) (i : ℕ)
      → RefusesEmpty env
      → start.world.terminal_conn_map ≡ []
      → ((j : ℕ) → (start.world.clients j).replaced ≡ false)
      → Reach env start s
      → find_terminal_client g s.world ≡ some i
      → (g ≢ [])
        × (i < s.world.client_count)
        × ((s.world.clients i).role ≡ terminal_client
            → ((s.world.clients i).valid ≡ true)
              × ((s.world.clients i).replaced ≡ false)
              × ((s.world.clients i).gwid ≡ g))
  unfolding find_terminal_client find
  Reach-find_terminal_client start s g i refuses none_yet unreplaced reach found =
      let h = Reach-Fine refuses start s started reach in
      (
        (λ e.
            ground (arith, h.named, ap (λ (k : Bytes). find k s.world.terminal_conn_map) e, found)),
        h.objects g i found,
        λ t. let own = h.owned g i found t in (own.0, h.alive i own.0, own.1),
      )
    where
      none_in : (m : ConnectionMap) → m ≡ [] → (k : Bytes) → find k m ≡ none
      none_in m e k = ap (find k) e

      started : Fine start
      started = record {
        named = none_in start.world.terminal_conn_map none_yet [];
        objects = λ k j e. ground (arith, e, none_in start.world.terminal_conn_map none_yet k);
        alive = λ j v. unreplaced j;
        owned = λ k j e t. ground (arith, e, none_in start.world.terminal_conn_map none_yet k);
      }
