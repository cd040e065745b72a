-- ===== src/Center/Registry/Routes.antt =====
-- What the error handling of a connection does to the routes.
use lemon_server.Common.{
  ℕ, ◌+◌, ltb, ◌≡◌, ◌≢◌, refl, sym, ap, ◌∙◌, Bool, true, false, not, ◌&&◌, Option, none, some,
  ==_iff, if◌then◌else◌, arith, Bool-cases, inl, inr,
}
use mathlib.Core.Path.{subst}
use lemon_server.Common.Bytes.{Bytes, is_empty}
use lemon_server.Center.Registry.{
  timeout_max, do_error, timeout, replace, replace_old, add_terminal_client, error_by,
  terminal_error, remote_proxy_error, call_caught, call_unexpected, remove_terminal_client,
  remove_remote_proxy,
}
use lemon_server.Center.Routing.{
  Route, Routed, Session, route, closed, erased, retired, retired_if, entered,
}
use lemon_server.Center.Routing.Changes.{Route-ext, closed-Routed, erased-Routed, listed-known}
use lemon_server.Center.World.{
  World, Role, terminal_client, web_client, remote_proxy_client, Env, find, insert, set_client,
}

module _ (env : Env) (i : ℕ) where
  abbrev shut : World → World
  shut w = set_client i (record (w.clients i) { valid = false }) w

  -- Nothing of the routes is changed by a connection's class that has no entry to take out.
  proxy-route :
      (w : World) → route (error_by env remote_proxy_client i (shut w)) ≡ closed i (route w)
  unfolding error_by remote_proxy_error call_unexpected remove_remote_proxy
  proxy-route w = Route-ext (λ j. ground (arith, ==_iff i j)) (ground arith) (ground arith)

  web-route : (w : World) → route (error_by env web_client i (shut w)) ≡ closed i (route w)
  unfolding error_by
  web-route w = Route-ext (λ j. ground (arith, ==_iff i j)) refl refl

  abbrev reports : World → Bool
  reports w = not (w.clients i).replaced && not (is_empty (w.clients i).gwid)

  quiet-route :
      (w : World)
      → reports w ≡ false
      → route (error_by env terminal_client i (shut w)) ≡ closed i (route w)
  unfolding error_by terminal_error
  quiet-route w h = Route-ext (λ j. ground (arith, ==_iff i j)) (ground arith) (ground arith)

  reported-route :
      (w : World)
      → reports w ≡ true
      → route (error_by env terminal_client i (shut w)) ≡ erased i (route w)
  unfolding error_by terminal_error call_caught remove_terminal_client
  reported-route w h = Route-ext (λ j. ground (arith, ==_iff i j)) (ground arith) (ground arith)

  do_error-at :
      (role : Role) (w : World)
      → (w.clients i).valid ≡ true
      → (w.clients i).role ≡ role
      → do_error env i w ≡ error_by env role i (shut w)
  unfolding do_error
  do_error-at role w valid e =
      ap (λ (b : Bool). if b then error_by env (w.clients i).role i (shut w) else w) valid
      ∙ ap (λ (r : Role). error_by env r i (shut w)) e

  abbrev RoutedAfter : World → Type 0
  RoutedAfter w = Routed (route (do_error env i w))

  role_cases :
      (role : Role) (w : World)
      → Routed (route w)
      → (w.clients i).valid ≡ true
      → (w.clients i).role ≡ role
      → RoutedAfter w
  role_cases terminal_client w h valid e = elim (Bool-cases (reports w)) [
    | inl reported ↦
        subst Routed
          (sym (ap route (do_error-at terminal_client w valid e) ∙ reported-route w reported))
          (erased-Routed i (route w) h (λ none_known. ground (arith, reported, none_known)))
    | inr quiet ↦
        subst Routed (sym (ap route (do_error-at terminal_client w valid e) ∙ quiet-route w quiet))
          (closed-Routed i (route w) h
            (λ g f t. ground (arith, quiet, h.alive i valid, listed-known g i (route w) h f t)))
  ]
  role_cases web_client w h valid e =
      subst Routed (sym (ap route (do_error-at web_client w valid e) ∙ web-route w))
        (closed-Routed i (route w) h (λ g f t. cc))
  role_cases remote_proxy_client w h valid e =
      subst Routed (sym (ap route (do_error-at remote_proxy_client w valid e) ∙ proxy-route w))
        (closed-Routed i (route w) h (λ g f t. cc))

  do_error-idle : (w : World) → (w.clients i).valid ≡ false → do_error env i w ≡ w
  unfolding do_error
  do_error-idle w gone = rw gone refl

  pub do_error-Routed : (w : World) → Routed (route w) → RoutedAfter w
  do_error-Routed w h = elim (Bool-cases (w.clients i).valid) [
    | inl valid ↦ role_cases (w.clients i).role w h valid refl
    | inr gone ↦ subst (λ (v : World). Routed (route v)) (sym (do_error-idle w gone)) h
  ]

  abbrev marked : World → World
  marked w = set_client i (record (w.clients i) { replaced = true }) w

  closed-marked : (w : World) → closed i (route (marked w)) ≡ retired i (route w)
  closed-marked w = Route-ext (λ j. ground (arith, ==_iff i j)) refl refl

  marked-retired :
      (w : World) → (w.clients i).valid ≡ false → route (marked w) ≡ retired i (route w)
  marked-retired w gone = Route-ext (λ j. ground (arith, ==_iff i j)) refl refl

  error-marked :
      (role : Role) (w : World)
      → route (error_by env role i (shut (marked w))) ≡ closed i (route (marked w))
  error-marked terminal_client w = quiet-route (marked w) (ground arith)
  error-marked web_client w = web-route (marked w)
  error-marked remote_proxy_client w = proxy-route (marked w)

  replace-route : (w : World) → route (replace env i w) ≡ retired i (route w)
  unfolding replace
  replace-route w = elim (Bool-cases (w.clients i).valid) [
    | inl valid ↦
        ap route (do_error-at (w.clients i).role (marked w) (ground arith) (ground arith))
        ∙ error-marked (w.clients i).role w
        ∙ closed-marked w
    | inr gone ↦ ap route (do_error-idle (marked w) (ground arith)) ∙ marked-retired w gone
  ]

  pub do_error-count : (w : World) → (do_error env i w).client_count ≡ w.client_count
  unfolding do_error error_by terminal_error remote_proxy_error call_caught call_unexpected
      remove_terminal_client remove_remote_proxy
  do_error-count w = ground arith

  pub do_error-role : (j : ℕ) (w : World) → ((do_error env i w).clients j).role ≡ (w.clients j).role
  unfolding do_error error_by terminal_error remote_proxy_error call_caught call_unexpected
      remove_terminal_client remove_remote_proxy
  do_error-role j w = ground (arith, ==_iff i j)

  -- The message that brings this about is no terminal's.
  pub do_error-Session :
      (role : Role) (self : ℕ) (w : World)
      → role ≢ terminal_client
      → Session role self (route w)
      → Session role self (route (do_error env i w))
  do_error-Session role self w other h = record {
    routed = do_error-Routed w h.routed;
    object = omega (arith, do_error-count w, h.object);
    class = do_error-role self w ∙ h.class;
    valid = λ t. absurd (other t);
  }

  abbrev counted : World → World
  counted w =
      set_client i (record (w.clients i) { timeout_count = (w.clients i).timeout_count + 1 }) w

  counted-route : (w : World) → route (counted w) ≡ route w
  counted-route w = Route-ext (λ j. ground (arith, ==_iff i j)) refl refl

  either :
      (b : Bool) (v u : World)
      → Routed (route v)
      → Routed (route u)
      → Routed (route (if b then v else u))
  either true v u h k = h
  either false v u h k = k

  pub timeout-Routed : (w : World) → Routed (route w) → Routed (route (timeout env i w))
  unfolding timeout
  timeout-Routed w h =
      let h' = subst Routed (sym (counted-route w)) h in
      either (w.clients i).valid _ _
        (either (ltb timeout_max ((w.clients i).timeout_count + 1)) _ _
          (do_error-Routed (counted w) h') h')
        h

module _ (env : Env) where
  replace_old-route :
      (o : Option ℕ) (w : World) → route (replace_old env o w) ≡ retired_if o (route w)
  unfolding replace_old
  replace_old-route none w = refl
  replace_old-route (some old) w = replace-route env old w

  retired-table : (o : Option ℕ) (r : Route) → (retired_if o r).table ≡ r.table
  retired-table none r = refl
  retired-table (some old) r = refl

  pub add_terminal_client-route :
      (g : Bytes) (conn : ℕ) (w : World)
      → route (add_terminal_client env g conn w) ≡ entered g conn (route w)
  unfolding add_terminal_client
  add_terminal_client-route g conn w =
      let old = replace_old-route (find g w.terminal_conn_map) w in
      Route-ext (λ j. ap (λ (r : Route). r.core j) old) (ap (λ (r : Route). r.count) old)
        (ap (insert g conn)
          (ap (λ (r : Route). r.table) old ∙ retired-table (find g w.terminal_conn_map) (route w)))
