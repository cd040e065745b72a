-- ===== src/Center/Terminal/Reports/Declared.antt =====
-- If the push server can be connected to, a terminal's report of events throws nothing but what its handler
-- is declared to throw.
use lemon_server.Common.{ℕ, zero, suc, ◌≡◌, true, arith}
use lemon_server.Common.Bytes.{Bytes}
use lemon_server.Center.Monad.{new_stream, build, read, read_string, center_host}
use lemon_server.Center.Monad.Declared.{Declared, Declared-Calm, Declared-skip, declared}
use lemon_server.Center.Push.Message.{push_body}
use lemon_server.Center.Terminal.Reports.{event, events, reported}
use lemon_server.Center.World.{Client, Env}
use lemon_server.Handler.Calm.{
  clean, is_ics, Calm-new_stream, Calm-build, Calm-read, Calm-read_string,
}
use lemon_server.Protocol.Errors.{Result}
use lemon_server.Protocol.Stream.{Writer, IcsDataTime, put_number, put_string, put_time, append}
use lemon_server.Center.Push.Declared.{push_send-Declared}

push_body-clean :
    (c : Client) (t : IcsDataTime) (id : ℕ) (v : Bytes) (w : Writer)
    → clean (push_body c t id v w) ≡ true
unfolding push_body put_number put_string put_time append clean is_ics
push_body-clean c t id v w = ground arith

module _ (env : Env) (connects : env.push_connects ≡ true) where
  read-Declared : (size : ℕ) → Declared (read size)
  read-Declared size = Declared-Calm (read size) (Calm-read size)

  read_string-Declared : Declared read_string
  read_string-Declared = Declared-Calm read_string Calm-read_string

  new_stream-Declared : Declared new_stream
  unfolding new_stream
  new_stream-Declared = Declared-Calm new_stream (Calm-new_stream center_host)

  build-Declared : (w : Writer) (r : Result Writer) → clean r ≡ true → Declared (build w r)
  unfolding build
  build-Declared w r h = Declared-Calm (build w r) (Calm-build center_host w r h)

  event-Declared : (self : ℕ) (t : IcsDataTime) → Declared (event env self t)
  unfolding event
  event-Declared self t =
      search
        (
          declared,
          read-Declared,
          read_string-Declared,
          new_stream-Declared,
          build-Declared,
          push_body-clean,
          push_send-Declared env connects,
        )
        depth 25

  events-Declared : (self : ℕ) (t : IcsDataTime) (n : ℕ) → Declared (events env self t n)
  unfolding events
  events-Declared self t zero = Declared-skip
  events-Declared self t (suc n) =
      search (declared, event-Declared, events-Declared self t n) depth 6

  pub reported-Declared : (self : ℕ) → Declared (reported env self)
  unfolding reported
  reported-Declared self = search (declared, read-Declared, events-Declared) depth 12
