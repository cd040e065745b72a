-- ===== src/Program.antt =====
-- src/center/server.cpp and src/proxy/server.cpp: what both `main` functions have in common, and what they call
-- of src/module/util.cpp, src/module/database.cpp and src/module/tcpserver.cpp.
pub mod Center
pub mod Starts
pub mod Proxy
mod Tests
use lemon_server.Common.{
  ℕ, ◌*◌, ◌%◌, ◌^◌, Bool, not, ◌&&◌, [], ◌∷◌, ◌++◌, Option, none, some, ◌==◌, if◌then◌else◌,
}
use lemon_server.Common.Bytes.{Bytes, is_empty}
use lemon_server.Address.{endpoint}
use lemon_server.Config.{Document, AttributeMap, load}
use lemon_server.Config.Access.{Cfg, ◌>>=◌, ◌>>◌, pure, lift, ask_string, ask_int}
use lemon_server.Numbers.{to_size}
use lemon_server.Pool
use lemon_server.Pool.{MemoryPool}
use lemon_server.Protocol.Errors.{
  otl_exception, unexpected, std_exception, daemon_error, Result, ok, throw,
}

-- What is outside of the program when it starts: the configuration file, whether `daemon` and `chdir` fail,
-- the address of a new buffer (or `std::bad_alloc`), whether the database can be opened, the
-- addresses that asio knows, and whether an end point can be listened at.
pub record Machine (A : Type 0) : Type 0 where
  pub file : Bytes → Document
  pub daemon_fails : Bool
  pub chdir_fails : Bytes → Bool
  pub allocates : ℕ → Option ℕ
  pub opens : Bytes → Bool
  pub from_string : Bytes → Option A
  pub listens : A × ℕ → Bool

-- What `main` returns, if it does. The code 4 is that of an exception of another class.
unfoldable pub exit_code : {S : Type 0} → Result S → Option ℕ
exit_code (ok s) = some 0
exit_code (throw unexpected) = none
exit_code (throw std_exception) = some 2
exit_code (throw otl_exception) = some 3
exit_code (throw e) = some 1

-- From the configuration file on. What is undefined behaviour has no outcome.
unfoldable pub started :
    {S : Type 0} → Cfg S → Option (Result AttributeMap) → Option (Result (S × AttributeMap))
started boot none = none
started boot (some (throw e)) = some (throw e)
started boot (some (ok m)) = some (boot m)

abbrev pub config_file : Option Bytes → Bytes → Bytes
config_file none standard = standard
config_file (some arg) standard = arg

-- /etc/icsconf.xml
abbrev standard_file : Bytes
standard_file =
    b'/' ∷ b'e' ∷ b't' ∷ b'c' ∷ b'/' ∷ b'i' ∷ b'c' ∷ b's' ∷ b'c' ∷ b'o' ∷ b'n' ∷ b'f' ∷ b'.' ∷ b'x'
    ∷ b'm' ∷ b'l' ∷ []

module _ {A : Type 0} (machine : Machine A) where
  -- `be_daemon`: it throws if `daemon` fails and `chdir` does not.
  unfoldable pub be_daemon : Bytes → Result (Unit {0})
  be_daemon root_dir =
      if machine.daemon_fails && not (machine.chdir_fails root_dir)
      then throw daemon_error
      else ok tt

  -- `MemoryPool::init`, with both of its arguments converted from `int`.
  unfoldable pub init_pool : ℕ → ℕ → Result MemoryPool
  unfolding Pool.init
  init_pool chunk_size chunk_count =
      elim (machine.allocates (to_size chunk_size * to_size chunk_count % 2 ^ 64)) [
        | none ↦ throw std_exception
        | some buff ↦ ok (Pool.init buff (to_size chunk_size) (to_size chunk_count))
      ]

  -- `DataBase::init` and `DataBase::open`, which may throw a `std::runtime_error` and not an
  -- `otl_exception`.
  unfoldable pub open_database : Bytes → Bytes → Bytes → Result (Unit {0})
  open_database uid pwd dsn =
      let conn_str = uid ++ b'/' ∷ (pwd ++ b'@' ∷ dsn) in
      if is_empty conn_str
      then throw std_exception
      else if machine.opens conn_str
      then ok tt
      else throw unexpected

  unfoldable pub listening : Result (A × ℕ) → Result (Unit {0})
  listening (throw e) = throw e
  listening (ok e) = if machine.listens e then ok tt else throw std_exception

  -- `TcpServer::init`
  unfoldable pub tcp_init : Bytes → Result (Unit {0})
  unfolding endpoint listening
  tcp_init addr = listening (endpoint machine.from_string addr)

  unfoldable pub daemonize : Cfg (Unit {0})
  daemonize = ask_string "program" "workdir" >>= λ workdir. lift (be_daemon workdir)

  -- The first part of both `main` functions. What the log makes of its file is left out.
  unfoldable pub prepare : Cfg MemoryPool
  prepare = do
    daemon ← ask_int "program" "daemon"
    (if daemon == 0 then pure tt else daemonize)
    configfile ← ask_string "log" "configfile"
    chunk_size ← ask_int "program" "chunksize"
    chunk_count ← ask_int "program" "chunkcount"
    lift (init_pool chunk_size chunk_count)

  -- `main`, up to the event loop: with a file that is named on the command line, or the standard one.
  unfoldable pub main : {S : Type 0} → Cfg S → Option Bytes → Option (Result (S × AttributeMap))
  unfolding load started
  main boot arg = started boot (load (machine.file (config_file arg standard_file)) [])
