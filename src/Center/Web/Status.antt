-- ===== src/Center/Web/Status.antt =====
-- What is recorded of a command that the web server sends to a terminal.
use lemon_server.Common.{
  ℕ, ◌≡◌, ◌⊎◌, refl, sym, ◌∙◌, ap, Bool, true, false, List, [], ◌∷◌, ◌++◌, Option, none, some, inl,
  inr, if◌then◌else◌,
}
use lemon_server.Common.Bytes.{Bytes, is_empty}
use lemon_server.Center.Monad.{
  M, Scene, Out, done, raised, new_stream, build, send_on, read, read_string, request_rewind,
  try_ics, center_host,
}
use lemon_server.Center.Monad.Runs.{Runs, call_runs}
use lemon_server.Center.Registry.{find_terminal_client}
use lemon_server.Center.Terminal
use lemon_server.Center.Web.{dispatch_to, dispatch_by, forward_to, ics_forward, handle_ics_forward}
use lemon_server.Center.World.{World, Role, terminal_client, Env, find}
use lemon_server.Database.{Call, sp_web_command_status, int}
use lemon_server.Handler.Calm.{
  Calm, Calm-bind, Calm-read, Calm-read_string, Calm-get_request, Calm-new_stream, Calm-build,
  Calm-send_on, put_rest-clean, try_ics-Calm, try_ics-at,
}
use lemon_server.Handler.Fixed.{Fixed, end_of, fixed, Fixed-new_stream, Fixed-build, Fixed-send_on}
use lemon_server.Handler.Steps.{bind_done, read_ok, read_string_ok}
use lemon_server.Protocol.Errors.{Exception, ok}
use lemon_server.Protocol.Stream.{Reader, get_number, get_string, rewind}

abbrev pub status : ℕ → ℕ → ℕ → Call
status request_id message_id stat = record {
  procedure = sp_web_command_status;
  args = int request_id ∷ int message_id ∷ int stat ∷ [];
}

pub if_false :
    (b : Bool) (m n : M (Unit {0})) (s : Scene) → b ≡ false → (if b then m else n) s ≡ n s
if_false b m n s e = rw e refl

abbrev db_of : World → List Call
db_of w = w.db

module _ (env : Env) where
  dispatch-db : (i : ℕ) → Fixed db_of (Terminal.dispatch env i)
  unfolding Terminal.dispatch new_stream build send_on
  dispatch-db i =
      search
        (
          fixed,
          Fixed-new_stream db_of center_host (λ p w. refl) (λ j a w. refl),
          Fixed-build db_of center_host (λ p w. refl) (λ j a w. refl),
          Fixed-send_on db_of center_host (λ p w. refl) (λ j a w. refl),
        )
        depth 20

  dispatch-Calm : (i : ℕ) → Calm (Terminal.dispatch env i)
  unfolding Terminal.dispatch new_stream build send_on
  dispatch-Calm i =
      search
        (
          Calm-bind, Calm-read, Calm-read_string, Calm-get_request, Calm-new_stream, Calm-build,
          Calm-send_on, put_rest-clean,
        )
        depth 20

  -- The scene after the message's three fields are read and the position is set back.
  abbrev pub rewound : Scene → Reader → Scene
  rewound s r = record s { request = rewind r }

  -- What the message is, and what comes of it: it went out on the terminal's connection, or there
  -- is none, or the sending threw.
  abbrev pub Reason : ℕ → Scene → Bytes → Type 0
  Reason stat s gwid =
      ((stat ≡ 0)
        × (i : ℕ) × (s' : Scene) × (find gwid s.world.terminal_conn_map ≡ some i)
        × (Terminal.dispatch env i s ≡ done tt s'))
      ⊎ ((stat ≡ 1)
          × ((find gwid s.world.terminal_conn_map ≡ none)
              ⊎ ((i : ℕ) × (e : Exception) × (s' : Scene) × (find gwid s.world.terminal_conn_map
                    ≡ some i)
                  × (Terminal.dispatch env i s ≡ raised e s'))))

  abbrev pub Recorded : ℕ → ℕ → Scene → Bytes → (Scene → Type 0) → Type 0
  Recorded mid rid s gwid Ended =
      (out : Scene) × (stat : ℕ) × Ended out
      × (out.world.db ≡ s.world.db ++ status rid mid stat ∷ [])
      × Reason stat s gwid

  abbrev pub with_status : ℕ → ℕ → ℕ → Scene → Scene
  with_status mid rid stat s = record s {
    world = record (s.world) { db = s.world.db ++ status rid mid stat ∷ [] };
  }

  ics_forward_then :
      (mid rid : ℕ) (s s' : Scene) (gwid : Bytes) (ret : Bool)
      → Runs env
      → forward_to env (find gwid s.world.terminal_conn_map) s ≡ done ret s'
      → ics_forward env gwid mid rid s ≡ done tt (with_status mid rid (if ret then 0 else 1) s')
  unfolding ics_forward find_terminal_client
  ics_forward_then mid rid s s' gwid ret runs e =
      bind_done (forward_to env (find gwid s.world.terminal_conn_map)) _ s ret e
      ∙ call_runs env sp_web_command_status (int rid ∷ int mid ∷ int (if ret then 0 else 1) ∷ []) s'
          runs

  same_db :
      (i : ℕ) (s : Scene) {o : Out (Unit {0})}
      → Terminal.dispatch env i s ≡ o
      → (end_of o).db ≡ s.world.db
  same_db i s e = ap (λ (o : Out (Unit {0})). (end_of o).db) (sym e) ∙ dispatch-db i s

  abbrev Forwarded : ℕ → ℕ → Scene → Bytes → Type 0
  Forwarded mid rid s gwid =
      Recorded mid rid s gwid λ out. ics_forward env gwid mid rid s ≡ done tt out

  forward_some :
      (i : ℕ) (s : Scene) (ret : Bool) (s' : Scene) (gwid : Bytes)
      → find gwid s.world.terminal_conn_map ≡ some i
      → (s.world.clients i).role ≡ terminal_client
      → try_ics (Terminal.dispatch env i) s ≡ done ret s'
      → forward_to env (find gwid s.world.terminal_conn_map) s ≡ done ret s'
  unfolding forward_to dispatch_to dispatch_by
  forward_some i s ret s' gwid e role h =
      ap (λ (o : Option ℕ). forward_to env o s) e
      ∙ try_ics-at (dispatch_to env i) (Terminal.dispatch env i) s
          (ap (λ (r : Role). dispatch_by env r i s) role)
      ∙ h

  forwarded :
      (mid rid : ℕ) (s : Scene) (gwid : Bytes) (o : Option ℕ)
      → find gwid s.world.terminal_conn_map ≡ o
      → ((i : ℕ)
          → find gwid s.world.terminal_conn_map ≡ some i
          → (s.world.clients i).role ≡ terminal_client)
      → Runs env
      → Forwarded mid rid s gwid
  forwarded mid rid s gwid none e roles runs = (
    with_status mid rid 1 s,
    1,
    ics_forward_then mid rid s s gwid false runs
        (unfold forward_to in ap (λ (o : Option ℕ). forward_to env o s) e),
    refl,
    inr (refl, inl e),
  )
  forwarded mid rid s gwid (some i) e roles runs =
      elim (try_ics-Calm (Terminal.dispatch env i) (dispatch-Calm i) s) [
        | inl (s', ran, tried) ↦ (
          with_status mid rid 0 s',
          0,
          ics_forward_then mid rid s s' gwid true runs
              (forward_some i s true s' gwid e (roles i e) tried),
          ap (λ (calls : List Call). calls ++ status rid mid 0 ∷ []) (same_db i s ran),
          inl (refl, i, s', e, ran),
        )
        | inr (x, s', threw, tried) ↦ (
          with_status mid rid 1 s',
          1,
          ics_forward_then mid rid s s' gwid false runs
              (forward_some i s false s' gwid e (roles i e) tried),
          ap (λ (calls : List Call). calls ++ status rid mid 1 ∷ []) (same_db i s threw),
          inr (refl, inr (i, x, s', e, threw)),
        )
      ]

  -- A message from the web server for a terminal, of which the terminal's name, not empty, the id
  -- and the request's number can be read, where the map has nothing but terminals' connections and
  -- no statement of the database fails: its handler ends without a throw, and of all statements
  -- exactly the command's status is executed. The status is 0 if the terminal has a connection
  -- whose `dispatch` did not throw, and 1 if it has no connection or `dispatch` threw.
  pub handle_ics_forward_status :
      (s : Scene) (gwid : Bytes) (mid rid : ℕ) (r1 r2 r3 : Reader)
      → get_string 1 s.request ≡ ok (gwid, r1)
      → get_number 2 r1 ≡ ok (mid, r2)
      → get_number 4 r2 ≡ ok (rid, r3)
      → is_empty gwid ≡ false
      → ((i : ℕ)
          → find gwid s.world.terminal_conn_map ≡ some i
          → (s.world.clients i).role ≡ terminal_client)
      → Runs env
      → Recorded mid rid (rewound s r3) gwid λ out. handle_ics_forward env s ≡ done tt out
  unfolding handle_ics_forward request_rewind
  handle_ics_forward_status s gwid mid rid r1 r2 r3 e1 e2 e3 named roles runs =
      let (out, stat, ended, db, reason) =
        forwarded mid rid (rewound s r3) gwid _ refl roles runs in
      (out, stat, parts ∙ ended, db, reason)
    where
      parts : handle_ics_forward env s ≡ ics_forward env gwid mid rid (rewound s r3)
      parts =
          bind_done read_string _ s gwid (read_string_ok s gwid r1 e1)
          ∙ bind_done (read 2) _ _ mid (read_ok 2 (record s { request = r1 }) mid r2 e2)
          ∙ bind_done (read 4) _ _ rid (read_ok 4 (record s { request = r2 }) rid r3 e3)
          ∙ rw named refl
