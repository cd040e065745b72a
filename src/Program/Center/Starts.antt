-- ===== src/Program/Center/Starts.antt =====
-- When the center server comes up, and with what.
use lemon_server.Common.{ℕ, ◌%◌, ◌^◌, ◌++◌, ◌≡◌, refl, true, List, [], ◌∷◌, Option, some}
use lemon_server.Common.Bytes.{Bytes}
use lemon_server.Address.{endpoint}
use lemon_server.Center.Monad.Runs.{Runs}
use lemon_server.Center.Server.{statement, clear_connection_info, server_onoff_line}
use lemon_server.Center.World.{World, Env}
use lemon_server.Config.{Section, rooted, AttributeMap, reload}
use lemon_server.Config.Access.{
  text_at, int_at, Alike, Gives, Gives-bind, Gives-pure, Gives-lift, Gives-then, Gives-string,
  Gives-int,
}
use lemon_server.Database.{Call, sp_clear_connection_info, sp_server_onoff_line, text, int}
use lemon_server.Pool.{MemoryPool}
use lemon_server.Program.{Machine, config_file, standard_file, open_database, main}
use lemon_server.Program.Center.{new_world, new_server, connected_push, push_init, construct, boot}
use lemon_server.Program.Starts.{
  Listens, Detaches, pool_bytes, Listens-tcp_init, configured_pool, prepare-Gives, main_starts,
}
use lemon_server.Protocol.Errors.{ok}

-- That all connections of an address are cleared, and that it is online.
abbrev pub cleared : Bytes → ℕ → Call
cleared ip port = record { procedure = sp_clear_connection_info; args = text ip ∷ int port ∷ [] }

abbrev pub online : Bytes → ℕ → Call
online ip port = record { procedure = sp_server_onoff_line; args = text ip ∷ int port ∷ int 1 ∷ [] }

-- No connection object, no entry in a map, the configured address and heartbeat time, and two
-- statements: one for the address that was in memory, and one for the configured one.
abbrev pub configured_world : AttributeMap → ℕ → MemoryPool → World
configured_world m stale_port pool = record (new_world 0 0 pool) {
  online_ip = text_at m "protocol" "onlineIP";
  online_port = int_at m "protocol" "onlinePort";
  heartbeat_time = int_at m "protocol" "heartbeat" % 2 ^ 16;
  db =
      cleared [] stale_port
      ∷ online (text_at m "protocol" "onlineIP") (int_at m "protocol" "onlinePort")
      ∷ [];
}

module _ {A : Type 0} (machine : Machine A) (env : Env) (stale_port stale_heartbeat : ℕ) where
  opened :
      (uid pwd dsn : Bytes)
      → machine.opens (uid ++ b'/' ∷ (pwd ++ b'@' ∷ dsn)) ≡ true
      → open_database machine uid pwd dsn ≡ ok tt
  unfolding open_database
  opened [] pwd dsn opens = rw opens refl
  opened (c ∷ cs) pwd dsn opens = rw opens refl

  clears :
      (pool : MemoryPool)
      → Runs env
      → clear_connection_info env (new_world stale_port stale_heartbeat pool)
        ≡ ok
            (record (new_world stale_port stale_heartbeat pool) { db = cleared [] stale_port ∷ [] })
  unfolding clear_connection_info statement
  clears pool runs = rw (runs [] (cleared [] stale_port)) refl

  goes_online :
      (w : World)
      → Runs env
      → server_onoff_line env 1 w
        ≡ ok (record w { db = w.db ++ online w.online_ip w.online_port ∷ [] })
  unfolding server_onoff_line statement
  goes_online w runs = rw (runs w.db (online w.online_ip w.online_port)) refl

  push_init-Gives :
      (m0 : AttributeMap) (addr : Bytes) (e : A × ℕ)
      → endpoint machine.from_string addr ≡ ok e
      → env.push_connects ≡ true
      → Gives m0 (push_init machine env stale_port stale_heartbeat addr) tt
  unfolding push_init connected_push
  push_init-Gives m0 addr e at connects =
      Gives-then m0 _ _ _ _ at (Gives-lift m0 _ _ (rw connects refl))

  construct-Gives :
      (m0 : AttributeMap) (terminal_addr web_addr push_addr : Bytes) (pool : MemoryPool) (e : A × ℕ)
      → Runs env
      → env.push_connects ≡ true
      → endpoint machine.from_string push_addr ≡ ok e
      → Listens machine terminal_addr
      → Listens machine web_addr
      → Gives m0
          (construct machine env stale_port stale_heartbeat terminal_addr web_addr push_addr pool)
          (new_server (configured_world m0 stale_port pool))
  unfolding construct
  construct-Gives m0 terminal_addr web_addr push_addr pool e runs connects at terminal web =
      Gives-bind m0 _ _ tt _ (push_init-Gives m0 _ e at connects) (
        Gives-then m0 _ _ _ _ (clears pool runs) (
          Gives-string m0 _ _ _ _ (
            Gives-int m0 _ _ _ _ (
              Gives-int m0 _ _ _ _ (
                Gives-then m0 _ _ _ _ (Listens-tcp_init machine _ terminal) (
                  Gives-then m0 _ _ _ _ (Listens-tcp_init machine _ web)
                    (Gives-then m0 _ _ _ _ (goes_online _ runs) (Gives-pure m0 _))))))))

  module _ (m0 : AttributeMap) where
    -- The connection string of the configuration.
    abbrev pub conn_str : Bytes
    conn_str =
        text_at m0 "database" "username"
        ++ b'/' ∷ (text_at m0 "database" "password" ++ b'@' ∷ text_at m0 "database" "dsn")

    boot-Gives :
        (buff : ℕ) (e : A × ℕ)
        → Detaches machine m0
        → machine.allocates (pool_bytes machine m0) ≡ some buff
        → machine.opens conn_str ≡ true
        → endpoint machine.from_string (text_at m0 "centeraddr" "msgpush") ≡ ok e
        → env.push_connects ≡ true
        → Listens machine (text_at m0 "centeraddr" "terminal")
        → Listens machine (text_at m0 "centeraddr" "web")
        → Runs env
        → Gives m0
            (boot machine env stale_port stale_heartbeat)
            (new_server (configured_world m0 stale_port (configured_pool machine m0 buff)))
    unfolding boot
    boot-Gives buff e detach memory opens at connects terminal web runs =
        Gives-bind m0 _ _ _ _ (prepare-Gives machine m0 buff detach memory) (
          Gives-string m0 _ _ _ _ (
            Gives-string m0 _ _ _ _ (
              Gives-string m0 _ _ _ _ (
                Gives-then m0 _ _ _ _
                  (opened (text_at m0 "database" "username") (text_at m0 "database" "password")
                    (text_at m0 "database" "dsn") opens)
                  (Gives-string m0 _ _ _ _ (
                    Gives-string m0 _ _ _ _ (
                      Gives-string m0 _ _ _ _
                        (construct-Gives m0 _ _ _ _ e runs connects at terminal web))))))))

    -- The center server comes up: if the file has a root element and is read as the configuration `m0`, the process is
    -- not to be a daemon or becomes one, the configured number of bytes is allocated, the database
    -- opens with the configured user, password and name and its statements succeed, the push
    -- system's address has an end point that can be connected to, and the two others' can be
    -- listened at, then `main` reaches its event loop. The server then has no connection, the configured
    -- address, heartbeat time (16 bits of it) and pool, and has executed two statements: that all connections of the
    -- address that was in memory are cleared, and that the configured address is online. The
    -- configuration still answers every question as before.
    pub center_starts :
        (buff : ℕ) (e : A × ℕ) (arg : Option Bytes) (l : List Section)
        → machine.file (config_file arg standard_file) ≡ rooted l
        → reload (rooted l) [] ≡ some (ok m0)
        → Detaches machine m0
        → machine.allocates (pool_bytes machine m0) ≡ some buff
        → machine.opens conn_str ≡ true
        → endpoint machine.from_string (text_at m0 "centeraddr" "msgpush") ≡ ok e
        → env.push_connects ≡ true
        → Listens machine (text_at m0 "centeraddr" "terminal")
        → Listens machine (text_at m0 "centeraddr" "web")
        → Runs env
        → (after : AttributeMap) × Alike after m0
          × (main machine (boot machine env stale_port stale_heartbeat) arg
              ≡ some (
                  ok (
                    new_server (configured_world m0 stale_port (configured_pool machine m0 buff)),
                    after,
                  )))
    center_starts buff e arg l file read detach memory opens at connects terminal web runs =
        main_starts machine m0 _ _ arg l file read
          (boot-Gives buff e detach memory opens at connects terminal web runs)
