-- ===== src/Protocol/Errors.antt =====
-- The exceptions that the servers throw. One constructor for each `throw IcsException(...)`, without
-- the text of its message but with the numbers in it; `otl_exception` is the database library's.
use lemon_server.Common.{ℕ}

pub data Exception : Type 0 where
  -- IcsMsgHead::verify
  bad_name : Exception
  bad_version : ℕ → Exception
  bad_length : ℕ → ℕ → Exception
  bad_crc_code : ℕ → Exception
  -- ProtocolStream
  bad_buffer : ℕ → Exception
  chunk_moved : Exception
  not_enough_memory : ℕ → ℕ → Exception
  no_room : ℕ → Exception
  no_data : ℕ → Exception
  no_move_forward : ℕ → Exception
  no_move_back : ℕ → Exception
  superfluous : ℕ → Exception
  -- Not of the source: a position inside the head, which a `Reader` does not represent.
  inside_head : Exception
  -- the servers
  must_authrize : Exception
  unknown_message : ℕ → Exception
  unknown_business_type : ℕ → Exception
  undefined_encode_type : Exception
  offset_past_end : ℕ → ℕ → Exception
  file_not_found : ℕ → Exception
  file_error : Exception
  authrize_failed : Exception
  never_dispatched : Exception
  bad_attribute : Exception
  -- TcpServer and PushSystem
  bad_address_format : Exception
  -- IcsConfig
  load_failed : Exception
  no_root : Exception
  null_argument : Exception
  -- be_daemon
  daemon_error : Exception
  -- Not an exception: `std::unexpected`, which ends the program, where an exception leaves a function
  -- that is not declared to throw it.
  unexpected : Exception
  otl_exception : Exception
  std_exception : Exception

-- The outcome of code that returns a value or throws, where nothing is changed by a throw.
pub data Result {ℓ} (A : Type ℓ) : Type ℓ where
  ok : A → Result A
  throw : Exception → Result A

infixl 5 ◌>>=◌ ◌>>◌
abbrev pub ◌>>=◌ {ℓ κ} : {A : Type ℓ} {B : Type κ} → Result A → (A → Result B) → Result B
ok a >>= f = f a
throw e >>= f = throw e

abbrev pub ◌>>◌ {ℓ} : {B : Type ℓ} → Result (Unit {0}) → Result B → Result B
m >> k = m >>= λ _. k
