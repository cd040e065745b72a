-- ===== src/Center/Registry/Ownership.antt =====
-- Who stands in the map of terminals.
use lemon_server.Common.{
  ℕ, zero, suc, ◌+◌, ◌≤◌, ◌<◌, ◌≡◌, refl, ◌∙◌, ap, true, false, List, Option, none, some, ==_iff,
  ltb, if◌then◌else◌, arith, Bool-cases, ltb→lt, inl, inr,
}
use lemon_server.Common.Maps.{find-insert}
use lemon_server.Common.Bytes.{Bytes, same}
use lemon_server.Center.Registry.{
  add_terminal_client, remove_terminal_client, terminal_error, remote_proxy_error, error_by,
  replace, replace_old, do_error, timeout, call_caught, call_unexpected, remove_remote_proxy,
}
use lemon_server.Center.World.{
  World, Role, terminal_client, web_client, remote_proxy_client, Env, find, set_client,
}

module _ (env : Env) where
  -- The connection object `i` is replaced by a later one.
  error-replaced :
      (r : Role) (i : ℕ) (w : World)
      → (w.clients i).replaced ≡ true
      → (error_by env r i w).terminal_conn_map ≡ w.terminal_conn_map
  unfolding error_by terminal_error remote_proxy_error call_unexpected remove_remote_proxy
  error-replaced terminal_client i w h = rw h refl
  error-replaced web_client i w h = refl
  error-replaced remote_proxy_client i w h = ground arith

  do_error-replaced :
      (i : ℕ) (w : World)
      → (w.clients i).replaced ≡ true
      → (do_error env i w).terminal_conn_map ≡ w.terminal_conn_map
  unfolding do_error
  do_error-replaced i w h = elim (Bool-cases (w.clients i).valid) [
    | inl valid ↦ rw valid (error-replaced (w.clients i).role i _ (ground arith))
    | inr gone ↦ rw gone refl
  ]

  pub error-valid :
      (r : Role) (i j : ℕ) (w : World)
      → ((error_by env r i w).clients j).valid ≡ (w.clients j).valid
  unfolding error_by terminal_error remote_proxy_error call_unexpected remove_remote_proxy
      call_caught remove_terminal_client
  error-valid terminal_client i j w = ground (arith, ==_iff i j)
  error-valid web_client i j w = refl
  error-valid remote_proxy_client i j w = ground (arith, ==_iff i j)

  pub do_error-invalid : (i : ℕ) (w : World) → ((do_error env i w).clients i).valid ≡ false
  unfolding do_error
  do_error-invalid i w = elim (Bool-cases (w.clients i).valid) [
    | inl valid ↦ rw valid (error-valid (w.clients i).role i i _ ∙ ground arith)
    | inr gone ↦ rw gone gone
  ]

  pub do_error-gone : (i : ℕ) (w : World) → (w.clients i).valid ≡ false → do_error env i w ≡ w
  unfolding do_error
  do_error-gone i w h = rw h refl

  abbrev marked : ℕ → World → World
  marked i w = set_client i (record (w.clients i) { replaced = true }) w

  replace-terminals :
      (i : ℕ) (w : World) → (replace env i w).terminal_conn_map ≡ w.terminal_conn_map
  unfolding replace
  replace-terminals i w = do_error-replaced i (marked i w) (ground arith)

  replace-invalid : (i : ℕ) (w : World) → ((replace env i w).clients i).valid ≡ false
  unfolding replace
  replace-invalid i w = do_error-invalid i (marked i w)

  replace_old-terminals :
      (o : Option ℕ) (w : World) → (replace_old env o w).terminal_conn_map ≡ w.terminal_conn_map
  unfolding replace_old
  replace_old-terminals none w = refl
  replace_old-terminals (some old) w = replace-terminals old w

  -- After a terminal is entered, its gateway id finds the new connection and every other id what
  -- it found before. If the id had another connection before, that one is invalid, and its own
  -- error handling, which comes later, changes nothing: the new entry is not removed by it.
  pub add_terminal_client-find :
      (gwid : Bytes) (conn : ℕ) (w : World)
      → ((j : Bytes)
          → find j (add_terminal_client env gwid conn w).terminal_conn_map
            ≡ (if same gwid j then some conn else find j w.terminal_conn_map))
        × ((old : ℕ)
            → find gwid w.terminal_conn_map ≡ some old
            → (((add_terminal_client env gwid conn w).clients old).valid ≡ false)
              × (do_error env old (add_terminal_client env gwid conn w)
                  ≡ add_terminal_client env gwid conn w))
  unfolding add_terminal_client
  add_terminal_client-find gwid conn w = (
    λ j.
        find-insert gwid j conn _
        ∙ ap (λ (m : List (Bytes × ℕ)). if same gwid j then some conn else find j m)
            (replace_old-terminals (find gwid w.terminal_conn_map) w),
    λ old e. (invalid old e, do_error-gone old _ (invalid old e)),
  )
    where
      invalid :
          (old : ℕ)
          → find gwid w.terminal_conn_map ≡ some old
          → ((replace_old env (find gwid w.terminal_conn_map) w).clients old).valid ≡ false
      invalid old e =
          ap (λ (o : Option ℕ). ((replace_old env o w).clients old).valid) e
          ∙ (unfold replace_old in replace-invalid old w)

  -- `n` turns of the timer, with no message in between.
  unfoldable pub timeouts : ℕ → ℕ → World → World
  timeouts i zero w = w
  timeouts i (suc n) w = timeouts i n (timeout env i w)

  timeouts-gone : (i n : ℕ) (w : World) → (w.clients i).valid ≡ false → timeouts i n w ≡ w
  unfolding timeouts
  timeouts-gone i zero w h = refl
  timeouts-gone i (suc n) w h = ap (timeouts i n) stays ∙ timeouts-gone i n w h
    where
      stays : timeout env i w ≡ w
      stays = unfold timeout in rw h refl

  abbrev pub counted : ℕ → World → World
  counted i w =
      set_client i (record (w.clients i) { timeout_count = (w.clients i).timeout_count + 1 }) w

  pub timeout-late :
      (i : ℕ) (w : World)
      → (w.clients i).valid ≡ true
      → (w.clients i).timeout_count ≡ 2
      → timeout env i w ≡ do_error env i (counted i w)
  unfolding timeout
  timeout-late i w v c = ground arith

  pub timeout-last :
      (i : ℕ) (w : World)
      → (w.clients i).valid ≡ true
      → (w.clients i).timeout_count ≡ 2
      → ((timeout env i w).clients i).valid ≡ false
  timeout-last i w v c =
      ap (λ (o : World). (o.clients i).valid) (timeout-late i w v c)
      ∙ do_error-invalid i (counted i w)

  pub timeout-early :
      (i : ℕ) (w : World)
      → (w.clients i).valid ≡ true
      → (w.clients i).timeout_count < 2
      → timeout env i w ≡ counted i w
  unfolding timeout
  timeout-early i w v c = ground arith

  -- A valid connection with its timeout count at 0, 1 or 2: after `n` turns of the timer with no
  -- message in between, it is valid exactly if the count and `n` together are at most 2.
  pub timeouts-valid :
      (i n : ℕ) (w : World)
      → (w.clients i).valid ≡ true
      → (w.clients i).timeout_count ≤ 2
      → ((timeouts i n w).clients i).valid ≡ ltb ((w.clients i).timeout_count + n) 3
  unfolding timeouts
  timeouts-valid i zero w v c = v ∙ ground arith
  timeouts-valid i (suc n) w v c = elim (Bool-cases (ltb (w.clients i).timeout_count 2)) [
    | inl early ↦
        let now = timeout-early i w v (ltb→lt _ _ early) in
        ap (λ (o : World). ((timeouts i n o).clients i).valid) now
        ∙ timeouts-valid i n (counted i w) (ground arith) (ground arith)
        ∙ ground arith
    | inr last ↦
        let gone = timeout-last i w v (ground arith) in
        ap (λ (o : World). (o.clients i).valid) (timeouts-gone i n (timeout env i w) gone)
        ∙ gone
        ∙ ground arith
  ]
