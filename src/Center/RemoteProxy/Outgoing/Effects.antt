-- ===== src/Center/RemoteProxy/Outgoing/Effects.antt =====
-- What `dispatch` on a remote proxy server's connection throws, and which statements it executes.
use lemon_server.Common.{
  ℕ, Bool, ◌≡◌, ◌≢◌, refl, ◌∙◌, ap, All, List, [], ◌∷◌, ◌++◌, append_assoc, append-nil, sym,
  if◌then◌else◌,
}
use lemon_server.Common.Bytes.{Bytes, is_empty}
use lemon_server.Center.Monad.{
  M, Out, done, raised, raise, ◌>>=◌, new_stream, holding, send_on, call, center_host,
}
use lemon_server.Center.Monad.Runs.{Runs}
use lemon_server.Center.RemoteProxy.Outgoing.{
  new_message, plain_body, upgrade_body, with_path, forward_body, dispatch,
}
use lemon_server.Center.World.{World, Env}
use lemon_server.Database.{Call, Procedure, SqlValue, sp_web_command_status, select_file_path}
use lemon_server.Handler.Calm.{
  Calm, calm, tidy, is_ics, Calm-raise, Calm-new_stream, Calm-holding, Calm-send_on,
}
use mathlib.Core.Path.{subst}
use lemon_server.Handler.Host.{holding_out, release}
use lemon_server.Handler.Fixed.{end_of, Fixed, fixed, Fixed-new_stream, Fixed-send_on}
use lemon_server.Handler.Leads.{Leads, Leads-Fixed, Leads-bind, Leads-after, Leads-if}
use lemon_server.Protocol.Errors.{file_not_found}
use lemon_server.Protocol.Stream.{Writer}

module _ (env : Env) (runs : Runs env) where
  call-Calm : (p : Procedure) (args : List SqlValue) → Calm (call env p args)
  unfolding call tidy
  call-Calm p args s = rw (runs s.world.db (record { procedure = p; args = args })) refl

  new_message-Calm : (id : ℕ) (need : Bool) → Calm (new_message id need)
  unfolding new_message new_stream
  new_message-Calm id need = search (calm, Calm-new_stream center_host) depth 12

  upgrade_body-Calm : (path : Bytes) (w : Writer) → Calm (upgrade_body path w)
  unfolding upgrade_body
  upgrade_body-Calm path w = search calm depth 25

  plain_body-Calm : (w : Writer) → Calm (plain_body w)
  unfolding plain_body
  plain_body-Calm w = search calm depth 12

  not_found-Calm : (file_id : ℕ) → Calm {W = World} (raise {A = Writer} (file_not_found file_id))
  unfolding is_ics
  not_found-Calm file_id = Calm-raise Writer (file_not_found file_id) refl

  with_path-Calm : (id : Bytes) (w : Writer) → Calm (with_path env id w)
  unfolding with_path
  with_path-Calm id w = search (calm, call-Calm, upgrade_body-Calm, not_found-Calm) depth 20

  forward_body-Calm : (w : Writer) → Calm (forward_body env w)
  unfolding forward_body
  forward_body-Calm w = search (calm, with_path-Calm, plain_body-Calm) depth 12

  pub dispatch-Calm : (i : ℕ) → Calm (dispatch env i)
  unfolding dispatch holding send_on
  dispatch-Calm i =
      search
        (
          calm,
          new_message-Calm,
          forward_body-Calm,
          Calm-holding center_host,
          Calm-send_on center_host,
        )
        depth 12

abbrev db_of : World → List Call
db_of w = w.db

-- Statements were executed, if any, of which none is the status of a command.
abbrev pub Silent : Call → Type 0
Silent c = c.procedure ≢ sp_web_command_status

abbrev pub Grown : List Call → List Call → Type 0
Grown before db = (calls : List Call) × (db ≡ before ++ calls) × All Silent calls

pub grown_nil : (before : List Call) → Grown before before
grown_nil before = ([], sym (append-nil before), tt)

All-snoc :
    (calls : List Call) (c : Call) → All Silent calls → Silent c → All Silent (calls ++ c ∷ [])
All-snoc [] c h k = (k, tt)
All-snoc (d ∷ calls) c h k = (h.0, All-snoc calls c h.1 k)

module _ (env : Env) (runs : Runs env) (before : List Call) where
  abbrev Grows : {A : Type 0} → M A → Type 0
  Grows m = Leads db_of (Grown before) (Grown before) m

  same : (db : List Call) → Grown before db → Grown before db
  same db h = h

  quiet_lem : {A : Type 0} (m : M A) → Fixed db_of m → Grows m
  quiet_lem m h = Leads-Fixed db_of (Grown before) m h

  path_queried : (args : List SqlValue) → Grows (call env select_file_path args)
  unfolding call
  path_queried args s (calls, e, silent) =
      let c : Call = record { procedure = select_file_path; args = args } in
      rw (runs s.world.db c) (
        calls ++ c ∷ [],
        ap (λ (db : List Call). db ++ c ∷ []) e ∙ append_assoc before calls (c ∷ []),
        All-snoc calls c silent (λ x. cc),
      )

  query_then :
      {B : Type 0} (args : List SqlValue) (k : Unit {0} → M B)
      → ((u : Unit {0}) → Grows (k u))
      → Grows (call env select_file_path args >>= k)
  query_then args k rest =
      Leads-bind db_of (Grown before) (Grown before) (call env select_file_path args) k same
        (path_queried args) rest

  after_query :
      (file_id : ℕ) (path : Bytes) (w : Writer)
      → Grows (if is_empty path then raise (file_not_found file_id) else upgrade_body path w)
  unfolding upgrade_body
  after_query file_id path w =
      quiet_lem (if is_empty path then raise (file_not_found file_id) else upgrade_body path w)
        (search fixed depth 25)

  with_path-Grows : (id : Bytes) (w : Writer) → Grows (with_path env id w)
  unfolding with_path
  with_path-Grows id w =
      search (Leads-after db_of (Grown before) (Grown before), query_then, same, fixed, after_query)
        depth 12

  either_lem :
      (b : Bool) (id : Bytes) (w : Writer) → Grows (if b then with_path env id w else plain_body w)
  unfolding plain_body
  either_lem b id w =
      Leads-if db_of (Grown before) (Grown before) b (with_path env id w) (plain_body w)
        (λ e. with_path-Grows id w) (λ e. quiet_lem (plain_body w) (search fixed depth 12))

  forward_body-Grows : (w : Writer) → Grows (forward_body env w)
  unfolding forward_body
  forward_body-Grows w =
      search (Leads-after db_of (Grown before) (Grown before), same, fixed, either_lem) depth 12

  held_out :
      (w : Writer) (o : Out Writer)
      → db_of (end_of (holding_out center_host w o)) ≡ db_of (end_of o)
  unfolding holding_out release
  held_out w (done a s) = refl
  held_out w (raised e s) = refl

  held_lem : (w : Writer) → Grows (holding w (forward_body env w))
  unfolding holding
  held_lem w s h =
      subst (Grown before) (sym (held_out w (forward_body env w s))) (forward_body-Grows w s h)

  new_message-Fixed : (id : ℕ) (need : Bool) → Fixed db_of (new_message id need)
  unfolding new_message new_stream
  new_message-Fixed id need =
      search (fixed, Fixed-new_stream db_of center_host (λ p w. refl) (λ j a w. refl)) depth 12

  sent_lem : (i : ℕ) (w : Writer) → Grows (send_on i w)
  unfolding send_on
  sent_lem i w =
      quiet_lem (send_on i w) (Fixed-send_on db_of center_host (λ p w. refl) (λ j a w. refl) i w)

  held_then : (i : ℕ) (w : Writer) → Grows (do w' ← holding w (forward_body env w); send_on i w')
  held_then i w =
      Leads-bind db_of (Grown before) (Grown before) (holding w (forward_body env w))
        (λ w'. send_on i w') same (held_lem w) (sent_lem i)

  pub dispatch-Grows : (i : ℕ) → Grows (dispatch env i)
  unfolding dispatch
  dispatch-Grows i =
      search (Leads-after db_of (Grown before) (Grown before), same, new_message-Fixed, held_then)
        depth 8
