-- ===== src/Handler.antt =====
-- The code of a handler of either server, `handle` and what it calls: it changes the server's state,
-- the request that it reads and the response that it writes, and it may throw. A throw undoes
-- nothing.
pub mod Steps
pub mod Host
pub mod Messages
pub mod Server
pub mod Fixed
pub mod Leads
pub mod Calm
use lemon_server.Common.{ℕ, Bool, true, false}
use lemon_server.Common.Bytes.{Bytes}
use lemon_server.Protocol.Errors.{
  Exception, otl_exception, std_exception, unexpected, Result, ok, throw,
}
use lemon_server.Protocol.Stream.{
  Reader, Writer, IcsDataTime, get_number, get_string, get_time, assert_empty, rewind, move_forward,
  move_forward_string, move_back, put_number, put_string, put_time, append, init_request,
  init_response,
}

-- What a handler changes: the state `W` of its server, the request and the response.
pub record Scene (W : Type 0) : Type 0 where
  pub world : W
  pub request : Reader
  pub response : Writer

pub data Out (W A : Type 0) : Type 0 where
  done : A → Scene W → Out W A
  raised : Exception → Scene W → Out W A

abbrev pub M : Type 0 → Type 0 → Type 0
M W A = Scene W → Out W A

infixl 5 ◌>>=◌ ◌>>◌
abbrev pub ◌>>=◌ : {W A B : Type 0} → M W A → (A → M W B) → M W B
◌>>=◌ m f s = elim (m s) [ done a s' ↦ f a s' | raised e s' ↦ raised e s' ]

abbrev pub ◌>>◌ : {W B : Type 0} → M W (Unit {0}) → M W B → M W B
m >> k = m >>= λ _. k

abbrev pub pure : {W A : Type 0} → A → M W A
pure a s = done a s

abbrev pub skip : {W : Type 0} → M W (Unit {0})
skip s = done tt s

abbrev pub raise : {W A : Type 0} → Exception → M W A
raise e s = raised e s

-- Code that changes nothing when it throws.
abbrev pub lift_read : {W A : Type 0} → Result (A × Reader) → M W A
lift_read (ok (a, r)) s = done a (record s { request = r })
lift_read (throw e) s = raised e s

abbrev pub lift_move : {W : Type 0} → Result Reader → M W (Unit {0})
lift_move (ok r) s = done tt (record s { request = r })
lift_move (throw e) s = raised e s

abbrev pub lift_write : {W : Type 0} → Result Writer → M W (Unit {0})
lift_write (ok w) s = done tt (record s { response = w })
lift_write (throw e) s = raised e s

abbrev pub lift_check : {W : Type 0} → Result (Unit {0}) → M W (Unit {0})
lift_check (ok _) s = done tt s
lift_check (throw e) s = raised e s

-- `request >> x`, by the type of `x`.
unfoldable pub read : {W : Type 0} → ℕ → M W ℕ
unfolding get_number
read size s = lift_read (get_number size s.request) s

unfoldable pub read_string : {W : Type 0} → M W Bytes
unfolding get_string
read_string s = lift_read (get_string 1 s.request) s

unfoldable pub read_long_string : {W : Type 0} → M W Bytes
unfolding get_string
read_long_string s = lift_read (get_string 2 s.request) s

unfoldable pub read_time : {W : Type 0} → M W IcsDataTime
unfolding get_time
read_time s = lift_read (get_time s.request) s

unfoldable pub request_empty : {W : Type 0} → M W (Unit {0})
unfolding assert_empty
request_empty s = lift_check (assert_empty s.request) s

unfoldable pub request_rewind : {W : Type 0} → M W (Unit {0})
unfolding rewind
request_rewind s = done tt (record s { request = rewind s.request })

unfoldable pub request_skip : {W : Type 0} → ℕ → M W (Unit {0})
unfolding move_forward
request_skip size s = lift_move (move_forward size s.request) s

unfoldable pub request_skip_string : {W : Type 0} → M W (Unit {0})
unfolding move_forward_string
request_skip_string s = lift_move (move_forward_string 1 s.request) s

unfoldable pub request_back : {W : Type 0} → ℕ → M W (Unit {0})
unfolding move_back
request_back size s = lift_move (move_back size s.request) s

-- `response << x`, and `response.initHead`.
unfoldable pub write : {W : Type 0} → ℕ → ℕ → M W (Unit {0})
unfolding put_number
write size n s = lift_write (put_number size n s.response) s

unfoldable pub write_string : {W : Type 0} → Bytes → M W (Unit {0})
unfolding put_string
write_string b s = lift_write (put_string 1 b s.response) s

unfoldable pub write_time : {W : Type 0} → IcsDataTime → M W (Unit {0})
unfolding put_time
write_time t s = lift_write (put_time t s.response) s

unfoldable pub write_bytes : {W : Type 0} → Bytes → M W (Unit {0})
unfolding append
write_bytes b s = lift_write (append b s.response) s

unfoldable pub respond : {W : Type 0} → ℕ → M W (Unit {0})
unfolding init_request
respond id s =
    done tt
      (record s { response = record (s.response) { head = init_request id false s.response.head } })

unfoldable pub respond_to : {W : Type 0} → ℕ → ℕ → M W (Unit {0})
unfolding init_response
respond_to id ack s =
    done tt
      (record s { response = record (s.response) { head = init_response id ack s.response.head } })

-- The server's state.
abbrev pub get_world : {W : Type 0} → M W W
get_world s = done s.world s

abbrev pub modify : {W : Type 0} → (W → W) → M W (Unit {0})
modify f s = done tt (record s { world = f s.world })

abbrev pub get_request : {W : Type 0} → M W Reader
get_request s = done s.request s

abbrev pub set_request : {W : Type 0} → (Reader → Reader) → M W (Unit {0})
set_request f s = done tt (record s { request = f s.request })

-- A call that changes nothing when it throws.
unfoldable pub lift : {W A : Type 0} → Result A → M W A
lift (ok a) s = done a s
lift (throw e) s = raised e s

-- `catch (IcsException&)` and `catch (otl_exception&)`.
caught_both : {W : Type 0} → Out W (Unit {0}) → Out W Bool
caught_both (done _ s) = done true s
caught_both (raised std_exception s) = raised std_exception s
caught_both (raised unexpected s) = raised unexpected s
caught_both (raised e s) = done false s

unfoldable pub try_both : {W : Type 0} → M W (Unit {0}) → M W Bool
unfolding caught_both
try_both m s = caught_both (m s)

-- `catch (IcsException&)`, which catches neither the database library's exceptions nor the standard
-- library's: whether the code was left by no exception.
caught : {W : Type 0} → Out W (Unit {0}) → Out W Bool
caught (done _ s) = done true s
caught (raised otl_exception s) = raised otl_exception s
caught (raised std_exception s) = raised std_exception s
caught (raised unexpected s) = raised unexpected s
caught (raised e s) = done false s

unfoldable pub try_ics : {W : Type 0} → M W (Unit {0}) → M W Bool
unfolding caught
try_ics m s = caught (m s)
