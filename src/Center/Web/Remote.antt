-- ===== src/Center/Web/Remote.antt =====
-- What is recorded of a command that the web server sends to a terminal of a remote proxy server.
use lemon_server.Common.{
  ℕ, ◌≡◌, ◌⊎◌, refl, ◌∙◌, ap, true, false, [], ◌∷◌, ◌++◌, Option, none, some, inl, inr,
  if◌then◌else◌,
}
use lemon_server.Common.Bytes.{Bytes, is_empty}
use mathlib.Core.Path.{subst}
use lemon_server.Center.Monad.{
  M, ◌>>=◌, ◌>>◌, Scene, Out, done, raised, read, read_string, request_rewind, try_ics, skip,
  get_world,
}
use lemon_server.Center.Monad.Runs.{Runs, call_runs}
use lemon_server.Center.Registry.{find_remote_proxy}
use lemon_server.Center.RemoteProxy.Outgoing
use lemon_server.Center.RemoteProxy.Outgoing.Effects.{
  dispatch-Calm, dispatch-Grows, Grown, grown_nil,
}
use lemon_server.Center.Web.{dispatch_to, dispatch_by, remote_forward, handle_remote_forward}
use lemon_server.Center.Web.Status.{status, rewound, with_status, if_false}
use lemon_server.Center.World.{Role, remote_proxy_client, Env}
use lemon_server.Database.{sp_web_command_status, int}
use lemon_server.Handler.Calm.{try_ics-Calm, try_ics-at}
use lemon_server.Handler.Fixed.{end_of}
use lemon_server.Handler.Steps.{bind_done, read_ok, read_string_ok}
use lemon_server.Protocol.Errors.{Exception, ok}
use lemon_server.Protocol.Stream.{Reader, get_number, get_string}

module _ (env : Env) where
  -- What was found, and what was done of it.
  abbrev pub Outcome : ℕ → ℕ → Scene → Option ℕ → Scene → Type 0
  Outcome mid rid s found out =
      ((found ≡ none) × (out.world.db ≡ s.world.db ++ status rid mid 0 ∷ []))
      ⊎ ((i : ℕ) × (found ≡ some i)
          × Grown s.world.db out.world.db
          × ((Outgoing.dispatch env i s ≡ done tt out)
              ⊎ ((e : Exception) × (Outgoing.dispatch env i s ≡ raised e out))))

  on_proxy :
      (i : ℕ) (s : Scene)
      → (s.world.clients i).role ≡ remote_proxy_client
      → try_ics (dispatch_to env i) s ≡ try_ics (Outgoing.dispatch env i) s
  unfolding dispatch_to dispatch_by
  on_proxy i s role =
      try_ics-at (dispatch_to env i) (Outgoing.dispatch env i) s
        (ap (λ (r : Role). dispatch_by env r i s) role)

  grown_from :
      (i : ℕ) (s : Scene) (o : Out (Unit {0}))
      → Runs env
      → Outgoing.dispatch env i s ≡ o
      → Grown s.world.db (end_of o).db
  grown_from i s o runs e =
      subst (λ (x : Out (Unit {0})). Grown s.world.db (end_of x).db) e
        (dispatch-Grows env runs s.world.db i s (grown_nil s.world.db))

  forwarded :
      (mid rid : ℕ) (s : Scene) (found : Option ℕ)
      → ((i : ℕ) → found ≡ some i → (s.world.clients i).role ≡ remote_proxy_client)
      → Runs env
      → (out : Scene) × (remote_forward env found mid rid s ≡ done tt out)
        × Outcome mid rid s found out
  unfolding remote_forward
  forwarded mid rid s none roles runs = (
    with_status env mid rid 0 s,
    call_runs env sp_web_command_status (int rid ∷ int mid ∷ int 0 ∷ []) s runs,
    inl (refl, refl),
  )
  forwarded mid rid s (some i) roles runs =
      elim (try_ics-Calm (Outgoing.dispatch env i) (dispatch-Calm env runs i) s) [
        | inl (s', ran, tried) ↦ (
          s',
          bind_done (try_ics (dispatch_to env i)) (λ sent. skip) s true
              (on_proxy i s (roles i refl) ∙ tried),
          inr (i, refl, grown_from i s (done tt s') runs ran, inl ran),
        )
        | inr (e, s', threw, tried) ↦ (
          s',
          bind_done (try_ics (dispatch_to env i)) (λ sent. skip) s false
              (on_proxy i s (roles i refl) ∙ tried),
          inr (i, refl, grown_from i s (raised e s') runs threw, inr (e, threw)),
        )
      ]

  -- A message from the web server for a terminal of a remote proxy server, of which the enterprise's and the
  -- terminal's name, which is not empty, the id and the request's number can be read, where the map leads to
  -- connections of remote proxy servers only and no statement of the database fails: its handler ends without a
  -- throw. If the enterprise has no connection, exactly the status 0 is recorded, that of a
  -- message that went out. If it has one, then whether `dispatch` on it ended or threw, its
  -- outcome is that of the handler, and none of the statements executed is a status.
  pub handle_remote_forward_status :
      (s : Scene) (enterprise gwid : Bytes) (mid rid : ℕ) (r1 r2 r3 r4 : Reader)
      → get_string 1 s.request ≡ ok (enterprise, r1)
      → get_string 1 r1 ≡ ok (gwid, r2)
      → get_number 2 r2 ≡ ok (mid, r3)
      → get_number 4 r3 ≡ ok (rid, r4)
      → is_empty gwid ≡ false
      → ((i : ℕ)
          → find_remote_proxy enterprise s.world ≡ some i
          → (s.world.clients i).role ≡ remote_proxy_client)
      → Runs env
      → (out : Scene) × (handle_remote_forward env s ≡ done tt out)
        × Outcome mid rid (rewound env s r4) (find_remote_proxy enterprise s.world) out
  unfolding handle_remote_forward request_rewind
  handle_remote_forward_status s enterprise gwid mid rid r1 r2 r3 r4 e1 e2 e3 e4 named roles runs =
      let (out, ended, outcome) =
        forwarded mid rid (rewound env s r4) (find_remote_proxy enterprise s.world) roles runs in
      (out, parts ∙ ended, outcome)
    where
      tail : ℕ → ℕ → M (Unit {0})
      tail mid rid = do
        request_rewind
        w ← get_world
        if is_empty gwid then skip else remote_forward env (find_remote_proxy enterprise w) mid rid

      parts :
          handle_remote_forward env s
          ≡ remote_forward env (find_remote_proxy enterprise s.world) mid rid (rewound env s r4)
      parts =
          bind_done read_string _ s enterprise (read_string_ok s enterprise r1 e1)
          ∙ bind_done read_string _ (record s { request = r1 }) gwid
              (read_string_ok (record s { request = r1 }) gwid r2 e2)
          ∙ bind_done (read 2) _ (record s { request = r2 }) mid
              (read_ok 2 (record s { request = r2 }) mid r3 e3)
          ∙ bind_done (read 4) (tail mid) (record s { request = r3 }) rid
              (read_ok 4 (record s { request = r3 }) rid r4 e4)
          ∙ if_false (is_empty gwid) skip
              (remote_forward env (find_remote_proxy enterprise s.world) mid rid) (rewound env s r4)
              named
