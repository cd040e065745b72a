-- ===== src/Center/Registry/Destruction.antt =====
-- What is reported to the database when the connection of a terminal ends: by its error handling, and
-- by the destructor of the connection object.
use lemon_server.Common.{
  ℕ, Bool, if◌then◌else◌, ◌≡◌, refl, ap, ◌∙◌, true, false, List, [], ◌∷◌, ◌++◌, arith, Bool-cases,
  inl, inr,
}
use lemon_server.Common.Bytes.{is_empty}
use lemon_server.Center.Registry.{
  destroy, replace, do_error, error_by, terminal_error, call_caught, call_unexpected, offline_call,
  remove_terminal_client,
}
use lemon_server.Center.Registry.Ownership.{do_error-gone}
use lemon_server.Center.World.{World, Role, terminal_client, Env, erase, set_client}
use lemon_server.Database.{Call}

module _ (env : Env) (self : ℕ) where
  abbrev closed : World → World
  closed w = set_client self (record (w.clients self) { valid = false }) w

  abbrev marked : World → World
  marked w = set_client self (record (w.clients self) { replaced = true }) w

  -- A terminal's connection whose error handling has been done, without its gateway id.
  abbrev reported : World → World
  reported w =
      set_client self (record (w.clients self) { gwid = [] })
        (record w {
          terminal_conn_map = erase (w.clients self).gwid w.terminal_conn_map;
          db = w.db ++ offline_call env (w.clients self).gwid w ∷ [];
        })

  do_error_lem :
      (w : World)
      → (w.clients self).role ≡ terminal_client
      → (w.clients self).valid ≡ true
      → do_error env self w ≡ terminal_error env self (closed w)
  unfolding do_error error_by
  do_error_lem w role valid =
      ap (λ (b : Bool). if b then error_by env (w.clients self).role self (closed w) else w) valid
      ∙ ap (λ (r : Role). error_by env r self (closed w)) role

  terminal_error-replaced :
      (w : World) → (w.clients self).replaced ≡ true → terminal_error env self w ≡ w
  unfolding terminal_error
  terminal_error-replaced w h = rw h refl

  destroy-replaced : (w : World) → (w.clients self).replaced ≡ true → destroy env self w ≡ w
  unfolding destroy
  destroy-replaced w h = rw h refl

  terminal_error-reported :
      (w : World)
      → (w.clients self).replaced ≡ false
      → is_empty (w.clients self).gwid ≡ false
      → ((calls : List Call) (c : Call) → env.db_fails calls c ≡ false)
      → terminal_error env self w ≡ reported w
  unfolding terminal_error call_caught remove_terminal_client
  terminal_error-reported w kept known works = simp (kept, known, works)

  destroy-monitored :
      (w : World)
      → (w.clients self).replaced ≡ false
      → is_empty (w.clients self).monitor_id ≡ false
      → ((calls : List Call) (c : Call) → env.db_fails calls c ≡ false)
      → (destroy env self w).db ≡ w.db ++ offline_call env (w.clients self).monitor_id w ∷ []
  unfolding destroy call_unexpected
  destroy-monitored w kept known works = simp (kept, known, works)

  -- A terminal's connection that is replaced by a later one of the terminal: neither its error
  -- handling nor its destructor executes a statement.
  pub destroy-replace :
      (w : World)
      → (w.clients self).role ≡ terminal_client
      → (destroy env self (replace env self w)).db ≡ w.db
  unfolding replace
  destroy-replace w role = elim (Bool-cases (w.clients self).valid) [
    | inl valid ↦
        let done =
          do_error_lem (marked w) (ground arith) (ground arith)
          ∙ terminal_error-replaced (closed (marked w)) (ground arith) in
        ap (λ (o : World). (destroy env self o).db) done
        ∙ ap (λ (o : World). o.db) (destroy-replaced (closed (marked w)) (ground arith))
    | inr gone ↦
        ap (λ (o : World). (destroy env self o).db)
          (do_error-gone env self (marked w) (ground arith))
        ∙ ap (λ (o : World). o.db) (destroy-replaced (marked w) (ground arith))
  ]

  -- A valid terminal's connection that is not replaced and has a gateway id and a monitor id, where
  -- no statement fails: its error handling and then its destructor execute `sp_offline` twice, with
  -- the gateway id and with the monitor id.
  pub destroy-do_error :
      (w : World)
      → (w.clients self).role ≡ terminal_client
      → (w.clients self).valid ≡ true
      → (w.clients self).replaced ≡ false
      → is_empty (w.clients self).gwid ≡ false
      → is_empty (w.clients self).monitor_id ≡ false
      → ((calls : List Call) (c : Call) → env.db_fails calls c ≡ false)
      → (destroy env self (do_error env self w)).db
        ≡ (w.db ++ offline_call env (w.clients self).gwid w ∷ [])
          ++ offline_call env (w.clients self).monitor_id w ∷ []
  unfolding offline_call
  destroy-do_error w role valid kept known monitored works =
      let done =
        do_error_lem w role valid
        ∙ terminal_error-reported (closed w) (ground arith) (ground arith) works in
      ap (λ (o : World). (destroy env self o).db) done
      ∙ destroy-monitored (reported (closed w)) (ground arith) (ground arith) works
      ∙ ground arith
