-- ===== src/Center/Terminal/Auth/Malformed.antt =====
-- An authentication request that ends behind the gateway id.
use lemon_server.Common.{ℕ, ◌≡◌, ap, ◌∙◌, true, false, List, [], none, if◌then◌else◌, arith}
use lemon_server.Common.Bytes.{Bytes, is_empty, same}
use lemon_server.Center.Monad.{Scene, raised, read_string}
use lemon_server.Handler.Steps.{bind_done, bind_raised, read_string_ok, read_string_throw}
use lemon_server.Center.Registry.{do_error}
use lemon_server.Center.Registry.Removal.{do_error-terminals}
use lemon_server.Common.Maps.{find-erase}
use lemon_server.Center.Terminal.Auth.{handle_auth_request, first_auth, after_gwid, set_gwid}
use lemon_server.Center.World.{World, terminal_client, Env, find, erase}
use lemon_server.Protocol.Errors.{Exception, ok, throw}
use lemon_server.Protocol.Stream.{Reader, get_string}

module _ (env : Env) (self : ℕ) where
  rest-malformed :
      (s : Scene) (g : Bytes) (e : Exception)
      → get_string 1 s.request ≡ throw e
      → after_gwid env self g s ≡ raised e s
  unfolding after_gwid
  rest-malformed s g e h = bind_raised read_string _ s e (read_string_throw s e h)

  first-malformed :
      (s : Scene) (g : Bytes) (r : Reader) (e : Exception)
      → get_string 1 s.request ≡ ok (g, r)
      → get_string 1 r ≡ throw e
      → first_auth env self s ≡ raised e (record s { world = set_gwid self g s.world; request = r })
  unfolding first_auth
  first-malformed s g r e e1 e2 =
      bind_done read_string _ s g (read_string_ok s g r e1)
      ∙ rest-malformed (record s { world = set_gwid self g s.world; request = r }) g e e2

  auth-malformed :
      (s : Scene) (g : Bytes) (r : Reader) (e : Exception)
      → (s.world.clients self).gwid ≡ []
      → get_string 1 s.request ≡ ok (g, r)
      → get_string 1 r ≡ throw e
      → handle_auth_request env self s
        ≡ raised e (record s { world = set_gwid self g s.world; request = r })
  unfolding handle_auth_request
  auth-malformed s g r e fresh e1 e2 = rw fresh (first-malformed s g r e e1 e2)

  abbrev named : Bytes → World → World
  named g w = set_gwid self g w

  named_gwid : (g : Bytes) (w : World) → ((named g w).clients self).gwid ≡ g
  named_gwid g w = ground arith

  named_else :
      (g : Bytes) (w : World)
      → (((named g w).clients self).role ≡ (w.clients self).role)
        × (((named g w).clients self).valid ≡ (w.clients self).valid)
        × (((named g w).clients self).replaced ≡ (w.clients self).replaced)
  named_else g w = (ground arith, ground arith, ground arith)

  -- A valid terminal connection that is not authenticated, and an authentication request from which
  -- a gateway id can be read, but no password after it: the handler throws; and the error handling
  -- of the connection, which then follows, leaves the map of terminals without that id, whatever
  -- connection it had, and all other ids as they were.
  pub handle_auth_request_malformed :
      (s : Scene) (g : Bytes) (r : Reader) (e : Exception)
      → (s.world.clients self).role ≡ terminal_client
      → (s.world.clients self).valid ≡ true
      → (s.world.clients self).replaced ≡ false
      → (s.world.clients self).gwid ≡ []
      → is_empty g ≡ false
      → get_string 1 s.request ≡ ok (g, r)
      → get_string 1 r ≡ throw e
      → (s' : Scene) × (handle_auth_request env self s ≡ raised e s')
        × ((j : Bytes)
            → find j (do_error env self s'.world).terminal_conn_map
              ≡ (if same g j then none else find j s.world.terminal_conn_map))
  handle_auth_request_malformed s g r e role valid kept fresh known e1 e2 =
      let (role', valid', kept') = named_else g s.world in
      let name = named_gwid g s.world in
      let erased =
        do_error-terminals env self (named g s.world) (role' ∙ role) (valid' ∙ valid) (kept' ∙ kept)
          (ap is_empty name ∙ known)
        ∙ ap (λ (h : Bytes). erase h s.world.terminal_conn_map) name in
      (
        record s { world = named g s.world; request = r },
        auth-malformed s g r e fresh e1 e2,
        λ j.
            ap (λ (m : List (Bytes × ℕ)). find j m) erased
            ∙ find-erase g j s.world.terminal_conn_map,
      )
