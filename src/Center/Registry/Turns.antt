-- ===== src/Center/Registry/Turns.antt =====
-- What a turn of the timer does to the connection objects: `timeout` and the error handling that may follow
-- it.
use lemon_server.Common.{
  ℕ, suc, ◌≤◌, ◌≡◌, refl, ◌∙◌, true, false, inl, inr, Bool-cases, arith, ==_iff,
}
use lemon_server.Center.Registry.{
  error_by, terminal_error, remote_proxy_error, do_error, timeout, call_caught, call_unexpected,
  remove_remote_proxy, remove_terminal_client,
}
use lemon_server.Center.Registry.Ownership.{error-valid, do_error-invalid}
use lemon_server.Center.World.{World, Role, terminal_client, web_client, remote_proxy_client, Env}

module _ (env : Env) where
  error-count :
      (r : Role) (i j : ℕ) (w : World)
      → ((error_by env r i w).clients j).timeout_count ≡ (w.clients j).timeout_count
  unfolding error_by terminal_error remote_proxy_error call_unexpected remove_remote_proxy
      call_caught remove_terminal_client
  error-count terminal_client i j w = ground (arith, ==_iff i j)
  error-count web_client i j w = refl
  error-count remote_proxy_client i j w = ground (arith, ==_iff i j)

  error-heartbeat :
      (r : Role) (i : ℕ) (w : World) → (error_by env r i w).heartbeat_time ≡ w.heartbeat_time
  unfolding error_by terminal_error remote_proxy_error call_unexpected remove_remote_proxy
      call_caught remove_terminal_client
  error-heartbeat terminal_client i w = ground arith
  error-heartbeat web_client i w = refl
  error-heartbeat remote_proxy_client i w = ground arith

  pub do_error-count :
      (i j : ℕ) (w : World)
      → ((do_error env i w).clients j).timeout_count ≡ (w.clients j).timeout_count
  unfolding do_error
  do_error-count i j w = elim (Bool-cases (w.clients i).valid) [
    | inl valid ↦ rw valid (error-count (w.clients i).role i j _ ∙ ground (arith, ==_iff i j))
    | inr gone ↦ rw gone refl
  ]

  pub do_error-heartbeat :
      (i : ℕ) (w : World) → (do_error env i w).heartbeat_time ≡ w.heartbeat_time
  unfolding do_error
  do_error-heartbeat i w = elim (Bool-cases (w.clients i).valid) [
    | inl valid ↦ rw valid (error-heartbeat (w.clients i).role i _)
    | inr gone ↦ rw gone refl
  ]

  do_error-gone :
      (i j : ℕ) (w : World)
      → (w.clients i).valid ≡ false
      → ((do_error env j w).clients i).valid ≡ false
  unfolding do_error
  do_error-gone i j w h = elim (Bool-cases (w.clients j).valid) [
    | inl valid ↦ rw valid (error-valid env (w.clients j).role j i _ ∙ ground (arith, ==_iff j i))
    | inr gone ↦ rw gone h
  ]

  pub timeout-gone :
      (i j : ℕ) (w : World)
      → (w.clients i).valid ≡ false
      → ((timeout env j w).clients i).valid ≡ false
  unfolding timeout
  timeout-gone i j w h = ground (arith, do_error-gone i j, ==_iff j i)

  pub timeout-kept :
      (i j : ℕ) (w : World)
      → (w.clients i).timeout_count ≤ ((timeout env j w).clients i).timeout_count
  unfolding timeout
  timeout-kept i j w = ground (arith, do_error-count j i, ==_iff j i)

  pub timeout-counted :
      (i : ℕ) (w : World)
      → ((timeout env i w).clients i).valid ≡ true
      → (suc (w.clients i).timeout_count ≤ ((timeout env i w).clients i).timeout_count)
        × (suc (w.clients i).timeout_count ≤ 2)
  unfolding timeout
  timeout-counted i w h = ground (arith, do_error-invalid env i, ==_iff i i)

  pub timeout-heartbeat : (i : ℕ) (w : World) → (timeout env i w).heartbeat_time ≡ w.heartbeat_time
  unfolding timeout
  timeout-heartbeat i w = ground (arith, do_error-heartbeat i)
