-- ===== src/Proxy/Registry/Turns.antt =====
-- What a turn of the timer does to the connection objects of the proxy server: `timeout` and the error
-- handling that may follow it, with its message to the centers.
use lemon_server.Common.{
  ℕ, suc, ◌+◌, ◌≤◌, ◌≡◌, refl, ◌∙◌, true, false, not, ◌&&◌, List, [], inl, inr, Bool-cases, arith,
  ==_iff,
}
use lemon_server.Common.Bytes.{Bytes, is_empty}
use lemon_server.Connection.Send.{SendArea}
use lemon_server.Handler.{done, raised}
use lemon_server.Handler.Fixed.{end_of}
use lemon_server.Pool.{MemoryPool}
use lemon_server.Proxy.Centers.{onoff_line_to_ics_center, not_throwing, unexpected}
use lemon_server.Proxy.Fixed.{onoff_line_to_ics_center-Fixed}
use lemon_server.Proxy.Monad.{Out}
use lemon_server.Proxy.Registry.{
  error_by, terminal_error, do_error, timeout, remove_terminal_client, remove_ics_center_conn,
}
use lemon_server.Proxy.World.{World, Role, proxy_terminal_client, ics_center, change_client}

-- A part of the state that the end of a connection leaves alone.
record Outlasts {X : Type 0} (f : World → X) : Type 0 where
  pool : (p : MemoryPool) (w : World) → f (record w { memory_pool = p }) ≡ f w
  area :
      (i : ℕ) (a : SendArea) (w : World) → f (change_client i (λ c. record c { send = a }) w) ≡ f w
  ended : (w : World) → f (record w { terminated = true }) ≡ f w
  terminals : (m : List (Bytes × ℕ)) (w : World) → f (record w { terminal_conn_map = m }) ≡ f w
  centers : (is : List ℕ) (w : World) → f (record w { ics_center_conn_map = is }) ≡ f w
  named : (i : ℕ) (w : World) → f (change_client i (λ c. record c { gwid = [] }) w) ≡ f w

module _ {X : Type 0} (f : World → X) (out : Outlasts f) where
  unexpected-Outlasts : (o : Out (Unit {0})) → f (unexpected o) ≡ f (end_of o)
  unfolding unexpected
  unexpected-Outlasts (done u s) = refl
  unexpected-Outlasts (raised e s) = out.ended s.world

  told-Outlasts : (i : ℕ) (w : World) → f (not_throwing (onoff_line_to_ics_center i 1) w) ≡ f w
  unfolding not_throwing
  told-Outlasts i w =
      unexpected-Outlasts (onoff_line_to_ics_center i 1 _)
      ∙ onoff_line_to_ics_center-Fixed f out.pool out.area i 1 _

  error-Outlasts : (r : Role) (i : ℕ) (w : World) → f (error_by r i w) ≡ f w
  unfolding error_by terminal_error remove_terminal_client remove_ics_center_conn
  error-Outlasts ics_center i w = out.centers _ w
  error-Outlasts proxy_terminal_client i w =
      elim (Bool-cases (not (w.clients i).replaced && not (is_empty (w.clients i).gwid))) [
        | inl known ↦ rw known (out.named i _ ∙ (told-Outlasts i _ ∙ out.terminals _ w))
        | inr unknown ↦ rw unknown refl
      ]

  do_error-Outlasts :
      (i : ℕ) (w : World)
      → f (change_client i (λ c. record c { valid = false }) w) ≡ f w
      → f (do_error i w) ≡ f w
  unfolding do_error
  do_error-Outlasts i w h = elim (Bool-cases (w.clients i).valid) [
    | inl valid ↦ rw valid (error-Outlasts (w.clients i).role i _ ∙ h)
    | inr gone ↦ rw gone refl
  ]

valid-Outlasts : (i : ℕ) → Outlasts λ (w : World). (w.clients i).valid
valid-Outlasts i = record {
  pool = λ p w. refl;
  area = λ j a w. ground (arith, ==_iff j i);
  ended = λ w. refl;
  terminals = λ m w. refl;
  centers = λ is w. refl;
  named = λ j w. ground (arith, ==_iff j i);
}

count-Outlasts : (i : ℕ) → Outlasts λ (w : World). (w.clients i).timeout_count
count-Outlasts i = record {
  pool = λ p w. refl;
  area = λ j a w. ground (arith, ==_iff j i);
  ended = λ w. refl;
  terminals = λ m w. refl;
  centers = λ is w. refl;
  named = λ j w. ground (arith, ==_iff j i);
}

heartbeat-Outlasts : Outlasts λ (w : World). w.heartbeat_time
heartbeat-Outlasts = record {
  pool = λ p w. refl;
  area = λ j a w. refl;
  ended = λ w. refl;
  terminals = λ m w. refl;
  centers = λ is w. refl;
  named = λ j w. refl;
}

do_error-count :
    (i j : ℕ) (w : World) → ((do_error i w).clients j).timeout_count ≡ (w.clients j).timeout_count
do_error-count i j w =
    do_error-Outlasts (λ (w : World). (w.clients j).timeout_count) (count-Outlasts j) i w
      (ground (arith, ==_iff i j))

do_error-heartbeat : (i : ℕ) (w : World) → (do_error i w).heartbeat_time ≡ w.heartbeat_time
do_error-heartbeat i w =
    do_error-Outlasts (λ (w : World). w.heartbeat_time) heartbeat-Outlasts i w refl

error-valid :
    (r : Role) (i j : ℕ) (w : World) → ((error_by r i w).clients j).valid ≡ (w.clients j).valid
error-valid r i j w = error-Outlasts (λ (w : World). (w.clients j).valid) (valid-Outlasts j) r i w

pub do_error-invalid : (i : ℕ) (w : World) → ((do_error i w).clients i).valid ≡ false
unfolding do_error
do_error-invalid i w = elim (Bool-cases (w.clients i).valid) [
  | inl valid ↦ rw valid (error-valid (w.clients i).role i i _ ∙ ground (arith, ==_iff i i))
  | inr gone ↦ rw gone gone
]

do_error-gone :
    (i j : ℕ) (w : World) → (w.clients i).valid ≡ false → ((do_error j w).clients i).valid ≡ false
unfolding do_error
do_error-gone i j w h = elim (Bool-cases (w.clients j).valid) [
  | inl valid ↦ rw valid (error-valid (w.clients j).role j i _ ∙ ground (arith, ==_iff j i))
  | inr gone ↦ rw gone h
]

-- The world in which the turn is counted.
abbrev counted : ℕ → World → World
counted i w = change_client i (λ c. record c { timeout_count = (w.clients i).timeout_count + 1 }) w

pub timeout-gone :
    (i j : ℕ) (w : World) → (w.clients i).valid ≡ false → ((timeout j w).clients i).valid ≡ false
unfolding timeout
timeout-gone i j w h = ground (arith, do_error-gone i j (counted j w), ==_iff j i)

pub timeout-kept :
    (i j : ℕ) (w : World) → (w.clients i).timeout_count ≤ ((timeout j w).clients i).timeout_count
unfolding timeout
timeout-kept i j w = ground (arith, do_error-count j i (counted j w), ==_iff j i)

pub timeout-counted :
    (i : ℕ) (w : World)
    → ((timeout i w).clients i).valid ≡ true
    → (suc (w.clients i).timeout_count ≤ ((timeout i w).clients i).timeout_count)
      × (suc (w.clients i).timeout_count ≤ 2)
unfolding timeout
timeout-counted i w h = ground (arith, do_error-invalid i (counted i w), ==_iff i i)

pub timeout-heartbeat : (i : ℕ) (w : World) → (timeout i w).heartbeat_time ≡ w.heartbeat_time
unfolding timeout
timeout-heartbeat i w = ground (arith, do_error-heartbeat i (counted i w))
