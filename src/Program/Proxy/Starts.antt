-- ===== src/Program/Proxy/Starts.antt =====
-- When the proxy server comes up, and with what.
use lemon_server.Common.{ℕ, ◌%◌, ◌^◌, ◌≡◌, List, [], Option, some}
use lemon_server.Common.Bytes.{Bytes}
use lemon_server.Config.{Section, rooted, AttributeMap, reload}
use lemon_server.Config.Access.{
  text_at, int_at, Alike, Gives, Gives-bind, Gives-pure, Gives-then, Gives-string, Gives-int,
}
use lemon_server.Pool.{MemoryPool}
use lemon_server.Program.{Machine, config_file, standard_file, main}
use lemon_server.Program.Proxy.{new_world, new_server, construct, boot}
use lemon_server.Program.Starts.{
  Listens, Detaches, pool_bytes, Listens-tcp_init, configured_pool, prepare-Gives, main_starts,
}
use lemon_server.Protocol.Errors.{ok}

module _ {A : Type 0} (machine : Machine A) (m0 : AttributeMap) where
  construct-Gives :
      (terminal_addr center_addr : Bytes) (pool : MemoryPool)
      → Listens machine terminal_addr
      → Listens machine center_addr
      → Gives m0
          (construct machine terminal_addr center_addr pool)
          (new_server (new_world (int_at m0 "protocol" "heartbeat" % 2 ^ 16) pool))
  unfolding construct
  construct-Gives terminal_addr center_addr pool terminal center = Gives-int m0 _ _ _ _ (
      Gives-then m0 _ _ _ _ (Listens-tcp_init machine _ terminal)
        (Gives-then m0 _ _ _ _ (Listens-tcp_init machine _ center) (Gives-pure m0 _)))

  boot-Gives :
      (buff : ℕ)
      → Detaches machine m0
      → machine.allocates (pool_bytes machine m0) ≡ some buff
      → Listens machine (text_at m0 "proxyraddr" "terminal")
      → Listens machine (text_at m0 "proxyraddr" "center")
      → Gives m0 (boot machine) (
          new_server (
            new_world
              (int_at m0 "protocol" "heartbeat" % 2 ^ 16)
              (configured_pool machine m0 buff)))
  unfolding boot
  boot-Gives buff detach memory terminal center =
      Gives-bind m0 _ _ _ _ (prepare-Gives machine m0 buff detach memory)
        (Gives-string m0 _ _ _ _ (Gives-string m0 _ _ _ _ (construct-Gives _ _ _ terminal center)))

  -- The proxy server comes up: if the file has a root element and is read as the configuration `m0`, the
  -- process is not to be a daemon or becomes one, the configured number of bytes is allocated, and
  -- both addresses can be listened at, then `main` reaches its event loop. The server has no connection, and the
  -- configured heartbeat time and pool.
  pub proxy_starts :
      (buff : ℕ) (arg : Option Bytes) (l : List Section)
      → machine.file (config_file arg standard_file) ≡ rooted l
      → reload (rooted l) [] ≡ some (ok m0)
      → Detaches machine m0
      → machine.allocates (pool_bytes machine m0) ≡ some buff
      → Listens machine (text_at m0 "proxyraddr" "terminal")
      → Listens machine (text_at m0 "proxyraddr" "center")
      → (after : AttributeMap) × Alike after m0
        × (main machine (boot machine) arg
            ≡ some (
                ok (
                  new_server (
                      new_world
                        (int_at m0 "protocol" "heartbeat" % 2 ^ 16)
                        (configured_pool machine m0 buff)),
                  after,
                )))
  proxy_starts buff arg l file read detach memory terminal center =
      main_starts machine m0 _ _ arg l file read (boot-Gives buff detach memory terminal center)
