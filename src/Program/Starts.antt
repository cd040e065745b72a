-- ===== src/Program/Starts.antt =====
-- When the parts that both `main` functions have in common succeed.
use lemon_server.Common.{
  ℕ, ◌*◌, ◌%◌, ◌^◌, ◌≡◌, refl, ap, ◌∙◌, Bool, true, List, [], Option, some, ◌⊎◌, inl, inr, ◌==◌,
  if◌then◌else◌,
}
use lemon_server.Common.Bytes.{Bytes}
use lemon_server.Address.{endpoint}
use lemon_server.Config.{Section, rooted, AttributeMap, load, reload}
use lemon_server.Config.Access.{
  Cfg, pure, text_at, int_at, Alike, Gives, Gives-bind, Gives-pure, Gives-lift, Gives-string,
  Gives-int, Gives-run,
}
use lemon_server.Numbers.{to_size}
use lemon_server.Pool
use lemon_server.Pool.{MemoryPool}
use lemon_server.Program.{
  Machine, started, daemonize, config_file, standard_file, be_daemon, init_pool, tcp_init,
  listening, prepare, main,
}
use lemon_server.Protocol.Errors.{ok}

module _ {A : Type 0} (machine : Machine A) where
  -- The address has an end point, which can be listened at.
  abbrev pub Listens : Bytes → Type 0
  Listens addr =
      (e : A × ℕ) × (endpoint machine.from_string addr ≡ ok e) × (machine.listens e ≡ true)

  -- The process is not to be a daemon, or becomes one.
  abbrev pub Detaches : AttributeMap → Type 0
  Detaches m =
      (int_at m "program" "daemon" ≡ 0)
      ⊎ (be_daemon machine (text_at m "program" "workdir") ≡ ok tt)

  -- The configured number of bytes, as the pool computes it.
  abbrev pub pool_bytes : AttributeMap → ℕ
  pool_bytes m =
      to_size (int_at m "program" "chunksize") * to_size (int_at m "program" "chunkcount") % 2 ^ 64

  pub Listens-tcp_init : (addr : Bytes) → Listens addr → tcp_init machine addr ≡ ok tt
  unfolding tcp_init listening
  Listens-tcp_init addr (e, at, free) = ap (listening machine) at ∙ rw free refl

  module _ (m0 : AttributeMap) where
    pub daemonize-Gives :
        be_daemon machine (text_at m0 "program" "workdir") ≡ ok tt → Gives m0 (daemonize machine) tt
    unfolding daemonize
    daemonize-Gives e = Gives-string m0 _ _ _ _ (Gives-lift m0 _ _ e)

    detach-Gives :
        (d : ℕ)
        → (d ≡ 0) ⊎ (be_daemon machine (text_at m0 "program" "workdir") ≡ ok tt)
        → Gives m0 (if d == 0 then pure tt else daemonize machine) tt
    detach-Gives d (inl none_asked) = rw none_asked (Gives-pure m0 tt)
    detach-Gives d (inr e) = either (d == 0)
      where
        either : (b : Bool) → Gives m0 (if b then pure tt else daemonize machine) tt
        either Bool.true = Gives-pure m0 tt
        either Bool.false = daemonize-Gives e

    init_pool-ok :
        (chunk_size chunk_count buff : ℕ)
        → machine.allocates (to_size chunk_size * to_size chunk_count % 2 ^ 64) ≡ some buff
        → init_pool machine chunk_size chunk_count
          ≡ ok (Pool.init buff (to_size chunk_size) (to_size chunk_count))
    unfolding init_pool
    init_pool-ok chunk_size chunk_count buff e = rw (e, init_pool) refl

    -- The pool that the configuration asks for.
    abbrev pub configured_pool : ℕ → MemoryPool
    configured_pool buff =
        Pool.init buff (to_size (int_at m0 "program" "chunksize"))
          (to_size (int_at m0 "program" "chunkcount"))

    pub prepare-Gives :
        (buff : ℕ)
        → Detaches m0
        → machine.allocates (pool_bytes m0) ≡ some buff
        → Gives m0 (prepare machine) (configured_pool buff)
    unfolding prepare
    prepare-Gives buff detach memory = Gives-int m0 _ _ _ _ (
        Gives-bind m0 _ _ tt _ (detach-Gives _ detach) (
          Gives-string m0 _ _ _ _ (
            Gives-int m0 _ _ _ _
              (Gives-int m0 _ _ _ _ (Gives-lift m0 _ _ (init_pool-ok _ _ buff memory))))))

    -- If the file has the configuration `m0`, then `main` ends as its own part does.
    pub main_starts :
        {S : Type 0} (boot : Cfg S) (s : S) (arg : Option Bytes) (l : List Section)
        → machine.file (config_file arg standard_file) ≡ rooted l
        → reload (rooted l) [] ≡ some (ok m0)
        → Gives m0 boot s
        → (after : AttributeMap) × Alike after m0 × (main machine boot arg ≡ some (ok (s, after)))
    unfolding main load
    main_starts boot s arg l file read g =
        let (after, alike, e) = Gives-run m0 boot s g in
        (
          after,
          alike,
          ap (λ doc. started boot (reload doc [])) file ∙ ap (started boot) read ∙ ap some e,
        )
