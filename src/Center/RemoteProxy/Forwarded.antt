-- ===== src/Center/RemoteProxy/Forwarded.antt =====
-- The messages of the terminals that a remote proxy server forwards.
use lemon_server.Common.{
  ℕ, ◌%◌, ◌^◌, ◌≡◌, ◌≢◌, refl, ◌∙◌, ap, false, [], Option, none, some, arith, ==_iff, if◌then◌else◌,
}
use lemon_server.Common.Bytes.{Bytes, is_empty}
use lemon_server.Center.Monad.{M, Scene, done, raised, read, read_string, try_both, skip, ◌>>=◌}
use lemon_server.Center.RemoteProxy.{
  local_id, set_local_id, find_local_id, forwarded, handle_terminal_message,
}
use lemon_server.Center.Terminal
use lemon_server.Center.World.{Client, Env, find, insert, set_client}
use lemon_server.Handler.Calm.{is_ics, try_both_raised}
use lemon_server.Handler.Steps.{bind_done, read_ok, read_string_ok}
use lemon_server.Protocol.Errors.{ok, must_authrize}
use lemon_server.Protocol.MessageId.{code, t2c_auth_request_0x0101}
use lemon_server.Protocol.Stream.{Reader, get_number, get_string, init_request}

local_id_lem :
    (remote_gwid l : Bytes) (c : Client)
    → find remote_gwid c.remote_ids ≡ some l
    → local_id remote_gwid c ≡ l
unfolding local_id
local_id_lem remote_gwid l c e =
    ap (λ (o : Option Bytes). elim o as (λ _. Bytes) [ none ↦ [] | some l ↦ l ]) e

module _ (env : Env) (self : ℕ) where
  -- The scene in which the terminal's handler runs.
  abbrev renamed : ℕ → Bytes → Scene → Scene
  renamed msgid l s = record s {
    request = record (s.request) { head = init_request msgid false s.request.head };
    world = set_client self (record (s.world.clients self) { monitor_id = l }) s.world;
  }

  terminal_refuses :
      (msgid : ℕ) (l : Bytes) (s : Scene)
      → (s.world.clients self).gwid ≡ []
      → msgid % 2 ^ 16 ≢ code t2c_auth_request_0x0101
      → Terminal.handle env self (renamed msgid l s) ≡ raised must_authrize (renamed msgid l s)
  unfolding Terminal.handle init_request
  terminal_refuses msgid l s no_gwid other = ground (arith, ==_iff self self)

  forwarded_lem :
      (msgid : ℕ) (l : Bytes) (s : Scene)
      → (s.world.clients self).gwid ≡ []
      → msgid % 2 ^ 16 ≢ code t2c_auth_request_0x0101
      → forwarded env self msgid l s ≡ done tt (renamed msgid l s)
  unfolding forwarded
  forwarded_lem msgid l s no_gwid other =
      bind_done (try_both (Terminal.handle env self)) _ (renamed msgid l s) false (
        try_both_raised (Terminal.handle env self) (renamed msgid l s) must_authrize
          (unfold is_ics in refl) (terminal_refuses msgid l s no_gwid other))

  -- The scene after the terminal's name is looked up, with its entry of the map made anew.
  abbrev looked_up : Bytes → Bytes → Scene → Scene
  looked_up remote_gwid l s = record s {
    world =
        set_client self
          (record (s.world.clients self) {
            remote_ids = insert remote_gwid l (s.world.clients self).remote_ids;
          })
          s.world;
  }

  find_local_id_known :
      (remote_gwid l : Bytes) (s : Scene)
      → find remote_gwid (s.world.clients self).remote_ids ≡ some l
      → is_empty l ≡ false
      → find_local_id env self remote_gwid s ≡ done l (looked_up remote_gwid l s)
  unfolding find_local_id set_local_id
  find_local_id_known remote_gwid l s e known =
      rw (local_id_lem remote_gwid l (s.world.clients self) e) (rw known refl)

  -- A message that the proxy server forwards for one of its terminals, whose name the connection
  -- has a local id for, not empty, where no terminal has authenticated itself on the connection
  -- to the proxy server, and the message is no authentication request: whatever the message is,
  -- its handler ends without a throw and without a response, no statement of the database is
  -- executed, and the maps of connections stay as they are, as the terminal's `handle` refuses it.
  pub handle_terminal_message_refused :
      (s : Scene) (remote_gwid l : Bytes) (msgid : ℕ) (r1 r2 : Reader)
      → get_string 1 s.request ≡ ok (remote_gwid, r1)
      → get_number 2 r1 ≡ ok (msgid, r2)
      → find remote_gwid (s.world.clients self).remote_ids ≡ some l
      → is_empty l ≡ false
      → (s.world.clients self).gwid ≡ []
      → msgid % 2 ^ 16 ≢ code t2c_auth_request_0x0101
      → (out : Scene) × (handle_terminal_message env self s ≡ done tt out)
        × (out.response ≡ s.response)
        × (out.world.db ≡ s.world.db)
        × (out.world.terminal_conn_map ≡ s.world.terminal_conn_map)
        × (out.world.proxy_conn_map ≡ s.world.proxy_conn_map)
  unfolding handle_terminal_message
  handle_terminal_message_refused s remote_gwid l msgid r1 r2 e1 e2 e3 known no_gwid other = (
    renamed msgid l found,
    bind_done read_string _ s remote_gwid (read_string_ok s remote_gwid r1 e1)
        ∙ bind_done (read 2) looking (record s { request = r1 }) msgid
            (read_ok 2 (record s { request = r1 }) msgid r2 e2)
        ∙ bind_done (find_local_id env self remote_gwid) (acting msgid) (record s { request = r2 })
            l (find_local_id_known remote_gwid l (record s { request = r2 }) e3 known)
        ∙ rw known (forwarded_lem msgid l found (ground (arith, ==_iff self self)) other),
    refl,
    refl,
    refl,
    refl,
  )
    where
      found : Scene
      found = looked_up remote_gwid l (record s { request = r2 })

      acting : ℕ → Bytes → M (Unit {0})
      acting msgid name = if is_empty name then skip else forwarded env self msgid name

      looking : ℕ → M (Unit {0})
      looking msgid = find_local_id env self remote_gwid >>= acting msgid
