-- ===== src/Center/Monad/Runs.antt =====
-- Statements that do not fail.
use lemon_server.Common.{◌≡◌, refl, false, List, [], ◌∷◌, ◌++◌}
use lemon_server.Center.Monad.{Scene, done, call}
use lemon_server.Center.World.{Env}
use lemon_server.Database.{Call, Procedure, SqlValue}

module _ (env : Env) where
  abbrev pub Runs : Type 0
  Runs = (calls : List Call) (c : Call) → env.db_fails calls c ≡ false

  pub call_runs :
      (p : Procedure) (args : List SqlValue) (s : Scene)
      → Runs
      → call env p args s
        ≡ done tt (record s {
          world = record (s.world) {
            db = s.world.db ++ record { procedure = p; args = args } ∷ [];
          };
        })
  unfolding call
  call_runs p args s runs = rw (runs s.world.db (record { procedure = p; args = args })) refl
