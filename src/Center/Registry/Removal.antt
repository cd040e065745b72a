-- ===== src/Center/Registry/Removal.antt =====
-- What the error handling of a terminal's connection does to the map of terminals.
use lemon_server.Common.{ℕ, ◌≡◌, ap, ◌∙◌, true, false, arith}
use lemon_server.Common.Bytes.{Bytes, is_empty}
use lemon_server.Center.Registry.{
  do_error, error_by, terminal_error, call_caught, remove_terminal_client,
}
use lemon_server.Center.World.{World, Role, terminal_client, Env, erase, set_client}
use lemon_server.Database.{Call}

module _ (env : Env) (self : ℕ) where
  call-terminals :
      (c : Call) (w : World) → (call_caught env c w).terminal_conn_map ≡ w.terminal_conn_map
  unfolding call_caught
  call-terminals c w = ground arith

  abbrev closed : World → World
  closed w = set_client self (record (w.clients self) { valid = false }) w

  error-terminals :
      (w : World)
      → (w.clients self).replaced ≡ false
      → is_empty (w.clients self).gwid ≡ false
      → (terminal_error env self w).terminal_conn_map
        ≡ erase (w.clients self).gwid w.terminal_conn_map
  unfolding terminal_error remove_terminal_client
  error-terminals w kept known =
      rw (kept, known) (call-terminals _ (remove_terminal_client (w.clients self).gwid w))

  closed_gwid : (w : World) → ((closed w).clients self).gwid ≡ (w.clients self).gwid
  closed_gwid w = ground arith

  closed_replaced : (w : World) → ((closed w).clients self).replaced ≡ (w.clients self).replaced
  closed_replaced w = ground arith

  -- The error handling of a valid terminal connection with a gateway id takes the id out.
  pub do_error-terminals :
      (w : World)
      → (w.clients self).role ≡ terminal_client
      → (w.clients self).valid ≡ true
      → (w.clients self).replaced ≡ false
      → is_empty (w.clients self).gwid ≡ false
      → (do_error env self w).terminal_conn_map ≡ erase (w.clients self).gwid w.terminal_conn_map
  unfolding do_error error_by
  do_error-terminals w role valid kept known = rw valid (
      ap (λ (r : Role). (error_by env r self (closed w)).terminal_conn_map) role
      ∙ error-terminals (closed w) (closed_replaced w ∙ kept) (ap is_empty (closed_gwid w) ∙ known)
      ∙ ap (λ (g : Bytes). erase g w.terminal_conn_map) (closed_gwid w))
