-- ===== src/Center/Frame.antt =====
-- The code of src/center/icslocalserver.cpp that leaves the connection objects, the maps, the files and
-- the program's life alone, however it ends.
use lemon_server.Common.{sym, ℕ, Bool, List, ◌≡◌, refl, ◌∙◌, if◌then◌else◌, Bool-cases, inl, inr}
use lemon_server.Center.Monad.{
  Scene, Out, done, raised, M, ◌>>=◌, pure, raise, read, read_string, read_long_string, read_time,
  request_empty, respond, get_world, call, lift_read, lift_write, lift_check,
}
use mathlib.Core.Path.{subst}
use lemon_server.Pool.{MemoryPool}
use lemon_server.Center.Monad.{center_host}
use lemon_server.Handler.Host.Made.{Made, new_stream-Made}
use lemon_server.Center.Monad.{
  write, write_time, write_bytes, respond_to, get_request, skip, new_stream, build, release,
}
use lemon_server.Center.World.{World, Env}
use lemon_server.Database.{Procedure, SqlValue}
use lemon_server.Protocol.Errors.{Exception, Result, ok, throw}
use lemon_server.Protocol.Stream.{Reader, Writer, IcsDataTime}
use lemon_server.Common.Bytes.{Bytes}

-- `w` has what `v` has, but for the statements, the pool and the push system.
pub record Same (v w : World) : Type 0 where
  pub clients : v.clients ≡ w.clients
  pub count : v.client_count ≡ w.client_count
  pub terminals : v.terminal_conn_map ≡ w.terminal_conn_map
  pub proxies : v.proxy_conn_map ≡ w.proxy_conn_map
  pub files : v.files ≡ w.files
  pub terminated : v.terminated ≡ w.terminated

pub Same-refl : (w : World) → Same w w
Same-refl w = record {
  clients = refl;
  count = refl;
  terminals = refl;
  proxies = refl;
  files = refl;
  terminated = refl;
}

pub Same-trans : {u v w : World} → Same u v → Same v w → Same u w
Same-trans a b = record {
  clients = a.clients ∙ b.clients;
  count = a.count ∙ b.count;
  terminals = a.terminals ∙ b.terminals;
  proxies = a.proxies ∙ b.proxies;
  files = a.files ∙ b.files;
  terminated = a.terminated ∙ b.terminated;
}

abbrev pub world_of : {A : Type 0} → Out A → World
world_of (done a s) = s.world
world_of (raised e s) = s.world

abbrev pub Keeps : {A : Type 0} → M A → Type 0
Keeps m = (s : Scene) → Same s.world (world_of (m s))

bind_from :
    {A B : Type 0} (f : A → M B) (w : World) (o : Out A)
    → Same w (world_of o)
    → ((a : A) → Keeps (f a))
    → Same w (world_of (elim o [ done a s' ↦ f a s' | raised e s' ↦ raised e s' ]))
bind_from f w (done a s) h k = Same-trans h (k a s)
bind_from f w (raised e s) h k = h

pub Keeps-bind :
    {A B : Type 0} (m : M A) (f : A → M B) → Keeps m → ((a : A) → Keeps (f a)) → Keeps (m >>= f)
Keeps-bind m f h k s = bind_from f s.world (m s) (h s) k

pub Keeps-pure : {A : Type 0} (a : A) → Keeps (pure a)
Keeps-pure a s = Same-refl s.world

pub Keeps-raise : (A : Type 0) (e : Exception) → Keeps (raise {A = A} e)
Keeps-raise A e s = Same-refl s.world

lift_read-Keeps : {A : Type 0} (r : Result (A × Reader)) → Keeps (lift_read r)
lift_read-Keeps (ok (a, r)) s = Same-refl s.world
lift_read-Keeps (throw e) s = Same-refl s.world

lift_write-Keeps : (r : Result Writer) → Keeps (lift_write r)
lift_write-Keeps (ok w) s = Same-refl s.world
lift_write-Keeps (throw e) s = Same-refl s.world

lift_check-Keeps : (r : Result (Unit {0})) → Keeps (lift_check r)
lift_check-Keeps (ok u) s = Same-refl s.world
lift_check-Keeps (throw e) s = Same-refl s.world

pub Keeps-read : (size : ℕ) → Keeps (read size)
unfolding read
Keeps-read size s = lift_read-Keeps _ s

pub Keeps-read_string : Keeps read_string
unfolding read_string
Keeps-read_string s = lift_read-Keeps _ s

pub Keeps-read_long_string : Keeps read_long_string
unfolding read_long_string
Keeps-read_long_string s = lift_read-Keeps _ s

pub Keeps-read_time : Keeps read_time
unfolding read_time
Keeps-read_time s = lift_read-Keeps _ s

pub Keeps-request_empty : Keeps request_empty
unfolding request_empty
Keeps-request_empty s = lift_check-Keeps _ s

pub Keeps-respond : (id : ℕ) → Keeps (respond id)
unfolding respond
Keeps-respond id s = Same-refl s.world

pub Keeps-call : (env : Env) (p : Procedure) (args : List SqlValue) → Keeps (call env p args)
unfolding call
Keeps-call env p args s =
    elim (Bool-cases (env.db_fails s.world.db (record { procedure = p; args = args }))) [
      | inl fails ↦ rw fails (Same-refl s.world)
      | inr runs ↦ rw runs (record {
        clients = refl;
        count = refl;
        terminals = refl;
        proxies = refl;
        files = refl;
        terminated = refl;
      })
    ]

pub Keeps-get_world : Keeps get_world
Keeps-get_world s = Same-refl s.world

pub Keeps-if : {A : Type 0} (b : Bool) (m n : M A) → Keeps m → Keeps n → Keeps (if b then m else n)
Keeps-if Bool.true m n h k = h
Keeps-if Bool.false m n h k = k

pub Keeps-write : (size n : ℕ) → Keeps (write size n)
unfolding write
Keeps-write size n s = lift_write-Keeps _ s

pub Keeps-write_time : (t : IcsDataTime) → Keeps (write_time t)
unfolding write_time
Keeps-write_time t s = lift_write-Keeps _ s

pub Keeps-write_bytes : (b : Bytes) → Keeps (write_bytes b)
unfolding write_bytes
Keeps-write_bytes b s = lift_write-Keeps _ s

pub Keeps-respond_to : (id ack : ℕ) → Keeps (respond_to id ack)
unfolding respond_to
Keeps-respond_to id ack s = Same-refl s.world

pub Keeps-get_request : Keeps get_request
Keeps-get_request s = Same-refl s.world

pub Keeps-skip : Keeps skip
Keeps-skip s = Same-refl s.world

-- The pool is not among what is kept.
pub Same-but_pool : (p : MemoryPool) (w : World) → Same w (record w { memory_pool = p })
Same-but_pool p w = record {
  clients = refl;
  count = refl;
  terminals = refl;
  proxies = refl;
  files = refl;
  terminated = refl;
}

Made-Same : (s : Scene) (o : Out Writer) → Made center_host s o → Same s.world (world_of o)
Made-Same s o (inl (w, p, e)) =
    subst (λ q. Same s.world (world_of q)) (sym e) (Same-but_pool p s.world)
Made-Same s o (inr (e, p, h)) =
    subst (λ q. Same s.world (world_of q)) (sym h) (Same-but_pool p s.world)

pub Keeps-new_stream : Keeps new_stream
unfolding new_stream
Keeps-new_stream s = Made-Same s (new_stream s) (new_stream-Made center_host s)

pub Keeps-build : (w : Writer) (r : Result Writer) → Keeps (build w r)
unfolding build release
Keeps-build w (ok w') s = Same-refl s.world
Keeps-build w (throw e) s = Same-but_pool _ s.world

pub ruleset keeps = (
  Keeps-write, Keeps-write_time, Keeps-write_bytes, Keeps-respond_to, Keeps-get_request, Keeps-skip,
  Keeps-new_stream, Keeps-build, Keeps-bind, Keeps-pure, Keeps-raise, Keeps-read, Keeps-read_string,
  Keeps-read_long_string, Keeps-read_time, Keeps-request_empty, Keeps-respond, Keeps-call,
  Keeps-get_world, Keeps-if,
)
