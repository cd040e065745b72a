-- ===== src/Handler/Calm.antt =====
-- Code that throws nothing but an `IcsException`.
use lemon_server.Common.{
  ℕ, Bool, true, false, ◌≡◌, ◌⊎◌, refl, ◌∙◌, ap, arith, inl, inr, if◌then◌else◌,
}
use lemon_server.Common.Bytes.{Bytes}
use lemon_server.Connection.Send.{SendArea, send_message}
use lemon_server.Handler.{
  Scene, Out, done, raised, M, ◌>>=◌, read, read_string, get_request, lift_read, try_ics, caught,
  pure, get_world, raise, lift_move, request_skip, request_skip_string, request_rewind, lift,
  try_both, caught_both,
}
use lemon_server.Handler.Host.{Host, taken, new_stream, build, sent, send_on, holding, holding_out}
use lemon_server.Pool
use lemon_server.Pool.{MemoryPool, MemoryChunk}
use lemon_server.Protocol.Errors.{
  Exception, otl_exception, std_exception, unexpected, Result, ok, throw,
}
use lemon_server.Protocol.Stream.{
  Reader, Writer, get_number, get_string, put_number, put_rest, append, new_writer, serialize,
  to_memory_chunk, move_forward, move_forward_string, put_string,
}

unfoldable pub is_ics : Exception → Bool
is_ics otl_exception = false
is_ics std_exception = false
is_ics unexpected = false
is_ics e = true

unfoldable pub clean : {A : Type 0} → Result A → Bool
clean (ok a) = true
clean (throw e) = is_ics e

unfoldable pub tidy : {W A : Type 0} → Out W A → Bool
tidy (done a s) = true
tidy (raised e s) = is_ics e

get_number-clean : (size : ℕ) (r : Reader) → clean (get_number size r) ≡ true
unfolding get_number clean is_ics
get_number-clean size r = ground arith

get_string-clean : (size : ℕ) (r : Reader) → clean (get_string size r) ≡ true
unfolding get_string get_number clean is_ics
get_string-clean size r = ground arith

move_forward-clean : (size : ℕ) (r : Reader) → clean (move_forward size r) ≡ true
unfolding move_forward clean is_ics
move_forward-clean size r = ground arith

move_forward_string-clean : (r : Reader) → clean (move_forward_string 1 r) ≡ true
unfolding move_forward_string move_forward get_number clean is_ics
move_forward_string-clean r = ground arith

pub put_number-clean : (size n : ℕ) (w : Writer) → clean (put_number size n w) ≡ true
unfolding put_number clean is_ics
put_number-clean size n w = ground arith

pub put_string-clean : (size : ℕ) (b : Bytes) (w : Writer) → clean (put_string size b w) ≡ true
unfolding put_string put_number append clean is_ics
put_string-clean size b w = ground arith

pub put_rest-clean : (r : Reader) (w : Writer) → clean (put_rest r w) ≡ true
unfolding put_rest append clean is_ics
put_rest-clean r w = ground arith

new_writer-clean : (c : MemoryChunk) → clean (new_writer c) ≡ true
unfolding new_writer clean is_ics
new_writer-clean c = ground arith

pub send_message-clean : (w : Writer) (a : SendArea) → clean (send_message w a).0 ≡ true
unfolding send_message serialize put_number to_memory_chunk clean is_ics
send_message-clean w a = ground arith

module _ {W : Type 0} where
  abbrev pub Calm : {A : Type 0} → M W A → Type 0
  Calm m = (s : Scene W) → tidy (m s) ≡ true

  bind_from :
      {A B : Type 0} (k : A → M W B) (o : Out W A)
      → tidy o ≡ true
      → ((a : A) → Calm (k a))
      → tidy (elim o as (λ _. Out W B) [ done a s' ↦ k a s' | raised e s' ↦ raised e s' ]) ≡ true
  unfolding tidy
  bind_from k (done a s) h calm = calm a s
  bind_from k (raised e s) h calm = h

  pub Calm-bind :
      {A B : Type 0} (m : M W A) (k : A → M W B) → Calm m → ((a : A) → Calm (k a)) → Calm (m >>= k)
  Calm-bind m k h calm s = bind_from k (m s) (h s) calm

  lift_read-Calm :
      {A : Type 0} (r : Result (A × Reader)) (s : Scene W)
      → clean r ≡ true
      → tidy (lift_read r s) ≡ true
  unfolding tidy clean
  lift_read-Calm (ok (a, r)) s h = refl
  lift_read-Calm (throw e) s h = h

  pub Calm-read : (size : ℕ) → Calm (read size)
  unfolding read
  Calm-read size s = lift_read-Calm _ s (get_number-clean size s.request)

  pub Calm-read_string : Calm read_string
  unfolding read_string
  Calm-read_string s = lift_read-Calm _ s (get_string-clean 1 s.request)

  pub Calm-get_request : Calm get_request
  unfolding tidy
  Calm-get_request s = refl

  pub Calm-pure : {A : Type 0} (a : A) → Calm (pure a)
  unfolding tidy
  Calm-pure a s = refl

  pub Calm-get_world : Calm get_world
  unfolding tidy
  Calm-get_world s = refl

  pub Calm-raise : (A : Type 0) (e : Exception) → is_ics e ≡ true → Calm (raise {A = A} e)
  unfolding tidy
  Calm-raise A e h s = h

  pub Calm-if : {A : Type 0} (b : Bool) (m n : M W A) → Calm m → Calm n → Calm (if b then m else n)
  Calm-if true m n h k = h
  Calm-if false m n h k = k

  lift_move-Calm : (r : Result Reader) (s : Scene W) → clean r ≡ true → tidy (lift_move r s) ≡ true
  unfolding tidy clean
  lift_move-Calm (ok r) s h = refl
  lift_move-Calm (throw e) s h = h

  pub Calm-request_skip : (size : ℕ) → Calm (request_skip size)
  unfolding request_skip
  Calm-request_skip size s = lift_move-Calm _ s (move_forward-clean size s.request)

  pub Calm-request_skip_string : Calm request_skip_string
  unfolding request_skip_string
  Calm-request_skip_string s = lift_move-Calm _ s (move_forward_string-clean s.request)

  pub Calm-request_rewind : Calm request_rewind
  unfolding request_rewind tidy
  Calm-request_rewind s = refl

  pub Calm-lift : {A : Type 0} (r : Result A) → clean r ≡ true → Calm (lift r)
  unfolding lift tidy clean
  Calm-lift (ok a) h s = refl
  Calm-lift (throw e) h s = h

  module _ (host : Host W) where
    holding_out-Calm :
        {A : Type 0} (w : Writer) (o : Out W A) → tidy o ≡ true → tidy (holding_out host w o) ≡ true
    unfolding holding_out tidy
    holding_out-Calm w (done a s) h = refl
    holding_out-Calm w (raised e s) h = h

    pub Calm-holding : {A : Type 0} (w : Writer) (m : M W A) → Calm m → Calm (holding host w m)
    unfolding holding
    Calm-holding w m h s = holding_out-Calm w (m s) (h s)

    taken-Calm :
        (r : Result Writer) (p : MemoryPool) (s : Scene W)
        → clean r ≡ true
        → tidy (taken host r p s) ≡ true
    unfolding tidy clean taken
    taken-Calm (ok w) p s h = refl
    taken-Calm (throw e) p s h = h

    pub Calm-new_stream : Calm (new_stream host)
    unfolding new_stream
    Calm-new_stream s =
        taken-Calm (new_writer (Pool.get (host.pool s.world)).0) (Pool.get (host.pool s.world)).1 s
          (new_writer-clean (Pool.get (host.pool s.world)).0)

    pub Calm-build : (w : Writer) (r : Result Writer) → clean r ≡ true → Calm (build host w r)
    unfolding build tidy clean
    Calm-build w (ok w') h s = refl
    Calm-build w (throw e) h s = h

    sent-Calm :
        (i : ℕ) (w : Writer) (r : Result Writer) (a : SendArea) (s : Scene W)
        → clean r ≡ true
        → tidy (sent host i w r a s) ≡ true
    unfolding sent tidy clean
    sent-Calm i w (ok w') a s h = refl
    sent-Calm i w (throw e) a s h = h

    pub Calm-send_on : (i : ℕ) (w : Writer) → Calm (send_on host i w)
    unfolding send_on
    Calm-send_on i w s = sent-Calm i w _ _ s (send_message-clean w _)

  -- Whether such code throws or not, `try` goes on, and knows.
  abbrev pub Tried : M W (Unit {0}) → Scene W → Type 0
  Tried m s =
      ((s' : Scene W) × (m s ≡ done tt s') × (try_ics m s ≡ done true s'))
      ⊎ ((e : Exception) × (s' : Scene W) × (m s ≡ raised e s') × (try_ics m s ≡ done false s'))

  caught_cases :
      (o : Out W (Unit {0}))
      → tidy o ≡ true
      → ((s' : Scene W) × (o ≡ done tt s') × (caught o ≡ done true s'))
        ⊎ ((e : Exception) × (s' : Scene W) × (o ≡ raised e s') × (caught o ≡ done false s'))
  unfolding caught tidy is_ics
  caught_cases (done tt s) h = inl (s, refl, refl)
  caught_cases (raised otl_exception s) h = ground arith
  caught_cases (raised std_exception s) h = ground arith
  caught_cases (raised unexpected s) h = ground arith
  caught_cases (raised e s) h = inr (e, s, refl, refl)

  pub try_ics-Calm : (m : M W (Unit {0})) → Calm m → (s : Scene W) → Tried m s
  unfolding try_ics
  try_ics-Calm m calm s = caught_cases (m s) (calm s)

  pub try_ics-at : (m n : M W (Unit {0})) (s : Scene W) → m s ≡ n s → try_ics m s ≡ try_ics n s
  unfolding try_ics
  try_ics-at m n s e = ap caught e

  caught_ics :
      (e : Exception) (s' : Scene W) → is_ics e ≡ true → caught_both (raised e s') ≡ done false s'
  unfolding caught_both is_ics
  caught_ics e s' ics = ground arith

  pub try_both_raised :
      (m : M W (Unit {0})) (s : Scene W) (e : Exception) {s' : Scene W}
      → is_ics e ≡ true
      → m s ≡ raised e s'
      → try_both m s ≡ done false s'
  unfolding try_both
  try_both_raised m s e {s'} ics h = ap caught_both h ∙ caught_ics e s' ics

pub ruleset calm = (
  Calm-bind, Calm-read, Calm-read_string, Calm-get_request, Calm-pure, Calm-get_world, Calm-raise,
  Calm-if, Calm-request_skip, Calm-request_skip_string, Calm-request_rewind, Calm-lift,
  put_number-clean, put_string-clean, put_rest-clean,
)
