-- ===== src/Center/RemoteProxy/Accepted.antt =====
-- How the center accepts a remote proxy server.
use lemon_server.Common.{
  ℕ, ◌+◌, ◌-◌, ◌^◌, ◌≤◌, ◌<◌, ◌≡◌, ◌↔◌, ◌∙◌, true, false, List, [], ◌∷◌, ◌++◌, some, arith, ==_iff,
  if◌then◌else◌,
}
use lemon_server.Common.Bytes.{Bytes, same_iff, le_bytes}
use lemon_server.Center.Monad.{
  Scene, done, read, request_empty, respond, write, call, ◌>>◌, M, raise,
}
use lemon_server.Center.Monad.Runs.{Runs, call_runs}
use lemon_server.Center.Registry.{add_remote_proxy}
use lemon_server.Common.Maps.{find-insert}
use lemon_server.Center.RemoteProxy.{in_time, accepted, handle_auth_response}
use lemon_server.Center.World.{World, Env, find, set_client}
use lemon_server.Database.{Call, SqlValue, text, int, sp_remote_proxy_onoff_line}
use lemon_server.Handler.Steps.{bind_done, read_ok, request_empty_ok, write_ok}
use lemon_server.Protocol.Errors.{ok, authrize_failed}
use lemon_server.Protocol.MessageId.{code, c2c_auth_request2_0x4003}
use lemon_server.Protocol.Stream.{Reader, get_number, init_request}

-- For two times that are no negative 64-bit numbers: the first is less than five seconds after the
-- second exactly if the code finds it in time, so every time that lies in the future is in time.
pub in_time_iff : (t3 t1 : ℕ) → t3 < 2 ^ 63 → t1 < 2 ^ 63 → (in_time t3 t1 ≡ true) ↔ (t3 < t1 + 5)
unfolding in_time
in_time_iff t3 t1 h3 h1 = (λ e. ground arith, λ e. ground arith)

module _ (env : Env) (self : ℕ) where
  abbrev ent : World → Bytes
  ent w = (w.clients self).enterprise_id

  abbrev Accepted : World → World → Type 0
  Accepted w v = ((v.clients self).is_legal ≡ true) × (find (ent w) v.proxy_conn_map ≡ some self)

  -- The scene once the statement is executed and the object marked.
  abbrev marked : ℕ → Scene → Scene
  marked t2 s =
      let args : List SqlValue =
        text (ent s.world) ∷ int 1 ∷ text s.world.online_ip ∷ int s.world.online_port ∷ [] in
      let c : Call = record { procedure = sp_remote_proxy_onoff_line; args = args } in
      record s {
        world =
            set_client self (record (s.world.clients self) { is_legal = true })
              (record (s.world) { db = s.world.db ++ c ∷ [] });
        response = record (s.response) {
          head = init_request (code c2c_auth_request2_0x4003) false s.response.head;
        };
      }

  abbrev answered : ℕ → Scene → Scene
  answered t2 s = record (marked t2 s) {
    world = add_remote_proxy (ent s.world) self (marked t2 s).world;
    response = record ((marked t2 s).response) {
      body = s.response.body ++ le_bytes 8 t2;
      room = s.response.room - 8;
    };
  }

  accepted_ok :
      (t2 : ℕ) (s : Scene)
      → Runs env
      → 8 ≤ s.response.room
      → accepted env self t2 s ≡ done tt (answered t2 s)
  unfolding accepted respond
  accepted_ok t2 s runs room =
      bind_done (call env sp_remote_proxy_onoff_line _) _ s tt
        (call_runs env sp_remote_proxy_onoff_line _ s runs)
      ∙ bind_done (write 8 t2) _ (marked t2 s) tt (write_ok 8 t2 (marked t2 s) room)

  answered-Accepted : (t2 : ℕ) (s : Scene) → Accepted s.world (answered t2 s).world
  unfolding add_remote_proxy
  answered-Accepted t2 s = (
    ground (arith, ==_iff self self),
    find-insert (ent s.world) (ent s.world) self s.world.proxy_conn_map
        ∙ ground (arith, same_iff (ent s.world) (ent s.world)),
  )

  -- An authentication response that holds two times and nothing else, where no statement of the
  -- database fails and the response has room for a time: if the center's clock is less than five
  -- seconds past the first time, which may as well lie in the future, the handler ends without a
  -- throw, the connection is marked as legal, and the enterprise's id finds it from then on.
  pub handle_auth_response_future :
      (s : Scene) (t1 t2 : ℕ) (r1 r2 : Reader)
      → get_number 8 s.request ≡ ok (t1, r1)
      → get_number 8 r1 ≡ ok (t2, r2)
      → r2.after ≡ []
      → t1 < 2 ^ 63
      → env.clock < 2 ^ 63
      → env.clock < t1 + 5
      → 8 ≤ s.response.room
      → Runs env
      → (out : Scene) × (handle_auth_response env self s ≡ done tt out) × Accepted s.world out.world
  unfolding handle_auth_response
  handle_auth_response_future s t1 t2 r1 r2 e1 e2 e3 h1 hc late room runs = (
    answered t2 (record s { request = r2 }),
    bind_done (read 8) _ s t1 (read_ok 8 s t1 r1 e1)
        ∙ bind_done (read 8) rest (record s { request = r1 }) t2
            (read_ok 8 (record s { request = r1 }) t2 r2 e2)
        ∙ bind_done request_empty _ (record s { request = r2 }) tt
            (request_empty_ok (record s { request = r2 }) e3)
        ∙ rw ((in_time_iff env.clock t1 hc h1).1 late)
            (accepted_ok t2 (record s { request = r2 }) runs room),
    answered-Accepted t2 (record s { request = r2 }),
  )
    where
      rest : ℕ → M (Unit {0})
      rest t2 = do
        request_empty
        if in_time env.clock t1 then accepted env self t2 else raise authrize_failed
