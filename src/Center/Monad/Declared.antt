-- ===== src/Center/Monad/Declared.antt =====
-- Code that throws nothing but what a handler is declared to throw: an `IcsException` or an `otl_exception`.
use lemon_server.Center.Frame.{Same, Keeps, world_of}
use lemon_server.Handler.Fixed.{Fixed, end_of}
use lemon_server.Handler.Leads.{Leads}
use mathlib.Core.Path.{subst}
use lemon_server.Common.{sym, ◌∙◌, ◌⊎◌}
use lemon_server.Common.{
  List, Bool, true, false, ◌≡◌, refl, arith, Bool-cases, inl, inr, if◌then◌else◌,
}
use lemon_server.Center.Monad.{
  M, Scene, Out, done, raised, ◌>>=◌, pure, skip, get_world, call, specified, only_specified,
  read_time, request_empty, lift_check, lift_read,
}
use lemon_server.Center.World.{World, Env}
use lemon_server.Database.{Procedure, SqlValue}
use lemon_server.Handler.Calm.{Calm, tidy, is_ics, clean}
use lemon_server.Protocol.Errors.{Exception, std_exception, unexpected, Result, ok, throw}
use lemon_server.Protocol.Stream.{Reader, get_time, get_number, assert_empty}

unfoldable pub is_declared : Exception → Bool
is_declared std_exception = false
is_declared unexpected = false
is_declared e = true

unfoldable pub lawful : {A : Type 0} → Out A → Bool
lawful (done a s) = true
lawful (raised e s) = is_declared e

abbrev pub Declared : {A : Type 0} → M A → Type 0
Declared m = (s : Scene) → lawful (m s) ≡ true

ics_declared : (e : Exception) → is_ics e ≡ true → is_declared e ≡ true
unfolding is_ics is_declared
ics_declared e h = ground arith

tidy-lawful : {A : Type 0} (o : Out A) → tidy o ≡ true → lawful o ≡ true
unfolding tidy lawful
tidy-lawful (done a s) h = refl
tidy-lawful (raised e s) h = ics_declared e h

pub Declared-Calm : {A : Type 0} (m : M A) → Calm m → Declared m
Declared-Calm m h s = tidy-lawful (m s) (h s)

bind_from :
    {A B : Type 0} (k : A → M B) (o : Out A)
    → lawful o ≡ true
    → ((a : A) → Declared (k a))
    → lawful (elim o as (λ _. Out B) [ done a s' ↦ k a s' | raised e s' ↦ raised e s' ]) ≡ true
unfolding lawful
bind_from k (done a s) h rest = rest a s
bind_from k (raised e s) h rest = h

pub Declared-bind :
    {A B : Type 0} (m : M A) (k : A → M B)
    → Declared m
    → ((a : A) → Declared (k a))
    → Declared (m >>= k)
Declared-bind m k h rest s = bind_from k (m s) (h s) rest

pub Declared-skip : Declared skip
unfolding lawful
Declared-skip s = refl

pub Declared-get_world : Declared get_world
unfolding lawful
Declared-get_world s = refl

pub Declared-pure : {A : Type 0} (a : A) → Declared (pure a)
unfolding lawful
Declared-pure a s = refl

pub Declared-call : (env : Env) (p : Procedure) (args : List SqlValue) → Declared (call env p args)
unfolding call lawful is_declared
Declared-call env p args s =
    elim (Bool-cases (env.db_fails s.world.db (record { procedure = p; args = args }))) [
      | inl fails ↦ rw fails refl
      | inr runs ↦ rw runs refl
    ]

get_time-clean : (r : Reader) → clean (get_time r) ≡ true
unfolding get_time get_number clean is_ics
get_time-clean r = ground arith

check_lawful : (q : Result (Unit {0})) (s : Scene) → clean q ≡ true → lawful (lift_check q s) ≡ true
unfolding lawful clean
check_lawful (ok u) s h = refl
check_lawful (throw e) s h = ics_declared e h

read_lawful :
    {A : Type 0} (q : Result (A × Reader)) (s : Scene)
    → clean q ≡ true
    → lawful (lift_read q s) ≡ true
unfolding lawful clean
read_lawful (ok (a, r)) s h = refl
read_lawful (throw e) s h = ics_declared e h

assert_empty-clean : (r : Reader) → clean (assert_empty r) ≡ true
unfolding assert_empty clean is_ics
assert_empty-clean r = ground arith

pub Declared-request_empty : Declared request_empty
unfolding request_empty
Declared-request_empty s = check_lawful (assert_empty s.request) s (assert_empty-clean s.request)

pub Declared-read_time : Declared read_time
unfolding read_time
Declared-read_time s = read_lawful (get_time s.request) s (get_time-clean s.request)

-- What the specification makes of such code, and of any.
specified-lawful : (o : Out (Unit {0})) → lawful o ≡ true → specified o ≡ o
unfolding specified lawful is_declared
specified-lawful (done tt s) h = refl
specified-lawful (raised std_exception s) h = absurd (ground (arith, h))
specified-lawful (raised e s) h = refl

pub only_specified_lem : (m : M (Unit {0})) → Declared m → (s : Scene) → only_specified m s ≡ m s
unfolding only_specified
only_specified_lem m h s = specified-lawful (m s) (h s)

pub Declared-if :
    {A : Type 0} (b : Bool) (m n : M A) → Declared m → Declared n → Declared (if b then m else n)
Declared-if true m n h k = h
Declared-if false m n h k = k

pub ruleset declared = (
  Declared-bind, Declared-skip, Declared-get_world, Declared-pure, Declared-call,
  Declared-request_empty, Declared-read_time, Declared-if,
)

-- What was kept by the code is kept by its specification, but for the program's life.
specified_ended :
    (v : World) (o : Out (Unit {0}))
    → Same v (world_of o)
    → Same v (world_of (specified o))
      ⊎ Same (record v { terminated = true }) (world_of (specified o))
unfolding specified
specified_ended v (done a s) h = inl h
specified_ended v (raised std_exception s) h = inr (record {
  clients = h.clients;
  count = h.count;
  terminals = h.terminals;
  proxies = h.proxies;
  files = h.files;
  terminated = refl;
})
specified_ended v (raised e s) h = inl h

pub only_specified_ended :
    (m : M (Unit {0})) (s : Scene)
    → Keeps m
    → Same s.world (world_of (only_specified m s))
      ⊎ Same (record (s.world) { terminated = true }) (world_of (only_specified m s))
unfolding only_specified
only_specified_ended m s h = specified_ended s.world (m s) (h s)

module _ {X : Type 0} (f : World → X)
    (life : (w : World) → f (record w { terminated = true }) ≡ f w) where
  specified_from : (o : Out (Unit {0})) → f (end_of (specified o)) ≡ f (end_of o)
  unfolding specified
  specified_from (done a s) = refl
  specified_from (raised std_exception s) = life s.world
  specified_from (raised e s) = refl

  pub Fixed-only_specified : (m : M (Unit {0})) → Fixed f m → Fixed f (only_specified m)
  unfolding only_specified
  Fixed-only_specified m h s = specified_from (m s) ∙ h s

  pub Leads-only_specified :
      (P Q : X → Type 0) (m : M (Unit {0})) → Leads f P Q m → Leads f P Q (only_specified m)
  unfolding only_specified
  Leads-only_specified P Q m h s p = subst Q (sym (specified_from (m s))) (h s p)
