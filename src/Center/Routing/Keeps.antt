-- ===== src/Center/Routing/Keeps.antt =====
-- Code that leaves every route alone.
use lemon_server.Common.{ℕ, List, ◌≡◌, refl, sym, ==_iff, arith}
use lemon_server.Connection.Send.{SendArea}
use lemon_server.Center.Frame.{Same, Keeps, Keeps-call}
use lemon_server.Center.Monad.{M, call, new_stream, build, holding, send_on, center_host}
use lemon_server.Center.Routing.Changes.{Route-ext}
use lemon_server.Center.Routing.{core_of, route}
use lemon_server.Center.World.{World, Env, Client, set_client}
use lemon_server.Database.{Procedure, SqlValue}
use lemon_server.Handler.Fixed.{Fixed, Fixed-new_stream, Fixed-build, Fixed-holding, Fixed-send_on}
use lemon_server.Pool.{MemoryPool}
use lemon_server.Protocol.Errors.{Result}
use lemon_server.Protocol.Stream.{Writer}

pub Same-route : {v w : World} → Same v w → route w ≡ route v
Same-route h =
    sym
      λ i. record { core = λ j. core_of (h.clients i j); count = h.count i; table = h.terminals i }

pub Keeps-Fixed : {A : Type 0} (m : M A) → Keeps m → Fixed route m
Keeps-Fixed m h s = Same-route (h s)

pub call-Fixed : (env : Env) (p : Procedure) (args : List SqlValue) → Fixed route (call env p args)
call-Fixed env p args = Keeps-Fixed (call env p args) (Keeps-call env p args)

-- A change of an object in which its core stays.
pub set_client-route :
    (i : ℕ) (c : Client) (w : World)
    → core_of c ≡ core_of (w.clients i)
    → route (set_client i c w) ≡ route w
set_client-route i c w h = Route-ext (λ j. ground (arith, ==_iff i j, h)) refl refl

pub pool-route : (p : MemoryPool) (w : World) → route (center_host.set_pool p w) ≡ route w
pool-route p w = refl

pub area-route : (i : ℕ) (a : SendArea) (w : World) → route (center_host.set_area i a w) ≡ route w
area-route i a w = set_client-route i (record (w.clients i) { send = a }) w refl

pub new_stream-Fixed : Fixed route new_stream
unfolding new_stream
new_stream-Fixed = Fixed-new_stream route center_host pool-route area-route

pub build-Fixed : (w : Writer) (r : Result Writer) → Fixed route (build w r)
unfolding build
build-Fixed w r = Fixed-build route center_host pool-route area-route w r

pub holding-Fixed : {A : Type 0} (w : Writer) (m : M A) → Fixed route m → Fixed route (holding w m)
unfolding holding
holding-Fixed w m h = Fixed-holding route center_host pool-route area-route w m h

pub send_on-Fixed : (i : ℕ) (w : Writer) → Fixed route (send_on i w)
unfolding send_on
send_on-Fixed i w = Fixed-send_on route center_host pool-route area-route i w
