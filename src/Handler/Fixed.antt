-- ===== src/Handler/Fixed.antt =====
-- What a handler's code leaves as it is in the server's state, however it ends: a part `f` of the state.
use lemon_server.Common.{ℕ, Bool, true, false, ◌≡◌, refl, ◌∙◌, if◌then◌else◌}
use lemon_server.Common.Bytes.{Bytes}
use lemon_server.Connection.Send.{SendArea}
use lemon_server.Handler.{
  Scene, Out, done, raised, M, ◌>>=◌, pure, skip, raise, lift_read, lift_move, lift_write,
  lift_check, read, read_string, read_long_string, read_time, request_empty, request_rewind,
  request_skip, request_skip_string, request_back, write, write_string, write_time, write_bytes,
  respond, respond_to, get_world, get_request, modify, lift,
}
use lemon_server.Handler.Host.{
  Host, taken, new_stream, copy_stream, release, drop_stream, build, holding, holding_out, sent,
  send_on,
}
use lemon_server.Pool.{MemoryPool}
use lemon_server.Protocol.Errors.{Exception, Result, ok, throw}
use lemon_server.Protocol.Stream.{Reader, Writer, IcsDataTime}

abbrev pub end_of : {W A : Type 0} → Out W A → W
end_of (done a s) = s.world
end_of (raised e s) = s.world

module _ {W X : Type 0} (f : W → X) where
  abbrev pub Fixed : {A : Type 0} → M W A → Type 0
  Fixed m = (s : Scene W) → f (end_of (m s)) ≡ f s.world

  bind_from :
      {A B : Type 0} (k : A → M W B) (w : W) (o : Out W A)
      → f (end_of o) ≡ f w
      → ((a : A) → Fixed (k a))
      → f (end_of (elim o as (λ _. Out W B) [ done a s' ↦ k a s' | raised e s' ↦ raised e s' ]))
        ≡ f w
  bind_from k w (done a s) h fixed = fixed a s ∙ h
  bind_from k w (raised e s) h fixed = h

  pub Fixed-bind :
      {A B : Type 0} (m : M W A) (k : A → M W B)
      → Fixed m
      → ((a : A) → Fixed (k a))
      → Fixed (m >>= k)
  Fixed-bind m k h fixed s = bind_from k s.world (m s) (h s) fixed

  pub Fixed-pure : {A : Type 0} (a : A) → Fixed (pure a)
  Fixed-pure a s = refl

  pub Fixed-skip : Fixed skip
  Fixed-skip s = refl

  pub Fixed-raise : (A : Type 0) (e : Exception) → Fixed (raise {A = A} e)
  Fixed-raise A e s = refl

  lift_read-Fixed : {A : Type 0} (r : Result (A × Reader)) → Fixed (lift_read r)
  lift_read-Fixed (ok (a, r)) s = refl
  lift_read-Fixed (throw e) s = refl

  lift_move-Fixed : (r : Result Reader) → Fixed (lift_move r)
  lift_move-Fixed (ok r) s = refl
  lift_move-Fixed (throw e) s = refl

  lift_write-Fixed : (r : Result Writer) → Fixed (lift_write r)
  lift_write-Fixed (ok w) s = refl
  lift_write-Fixed (throw e) s = refl

  lift_check-Fixed : (r : Result (Unit {0})) → Fixed (lift_check r)
  lift_check-Fixed (ok u) s = refl
  lift_check-Fixed (throw e) s = refl

  pub Fixed-read : (size : ℕ) → Fixed (read size)
  unfolding read
  Fixed-read size s = lift_read-Fixed _ s

  pub Fixed-read_string : Fixed read_string
  unfolding read_string
  Fixed-read_string s = lift_read-Fixed _ s

  pub Fixed-read_long_string : Fixed read_long_string
  unfolding read_long_string
  Fixed-read_long_string s = lift_read-Fixed _ s

  pub Fixed-read_time : Fixed read_time
  unfolding read_time
  Fixed-read_time s = lift_read-Fixed _ s

  pub Fixed-request_empty : Fixed request_empty
  unfolding request_empty
  Fixed-request_empty s = lift_check-Fixed _ s

  pub Fixed-request_rewind : Fixed request_rewind
  unfolding request_rewind
  Fixed-request_rewind s = refl

  pub Fixed-request_skip : (size : ℕ) → Fixed (request_skip size)
  unfolding request_skip
  Fixed-request_skip size s = lift_move-Fixed _ s

  pub Fixed-request_skip_string : Fixed request_skip_string
  unfolding request_skip_string
  Fixed-request_skip_string s = lift_move-Fixed _ s

  pub Fixed-request_back : (size : ℕ) → Fixed (request_back size)
  unfolding request_back
  Fixed-request_back size s = lift_move-Fixed _ s

  pub Fixed-write : (size n : ℕ) → Fixed (write size n)
  unfolding write
  Fixed-write size n s = lift_write-Fixed _ s

  pub Fixed-write_string : (b : Bytes) → Fixed (write_string b)
  unfolding write_string
  Fixed-write_string b s = lift_write-Fixed _ s

  pub Fixed-write_time : (t : IcsDataTime) → Fixed (write_time t)
  unfolding write_time
  Fixed-write_time t s = lift_write-Fixed _ s

  pub Fixed-write_bytes : (b : Bytes) → Fixed (write_bytes b)
  unfolding write_bytes
  Fixed-write_bytes b s = lift_write-Fixed _ s

  pub Fixed-respond : (id : ℕ) → Fixed (respond id)
  unfolding respond
  Fixed-respond id s = refl

  pub Fixed-respond_to : (id ack : ℕ) → Fixed (respond_to id ack)
  unfolding respond_to
  Fixed-respond_to id ack s = refl

  pub Fixed-get_world : Fixed get_world
  Fixed-get_world s = refl

  pub Fixed-get_request : Fixed get_request
  Fixed-get_request s = refl

  pub Fixed-modify : (g : W → W) → ((w : W) → f (g w) ≡ f w) → Fixed (modify g)
  Fixed-modify g h s = h s.world

  pub Fixed-lift : {A : Type 0} (r : Result A) → Fixed (lift r)
  unfolding lift
  Fixed-lift (ok a) s = refl
  Fixed-lift (throw e) s = refl

  pub Fixed-if :
      {A : Type 0} (b : Bool) (m n : M W A) → Fixed m → Fixed n → Fixed (if b then m else n)
  Fixed-if true m n h k = h
  Fixed-if false m n h k = k

  -- Streams, where the memory pool and the send areas are no part of `f`.
  module _ (host : Host W) (pool : (p : MemoryPool) (w : W) → f (host.set_pool p w) ≡ f w)
      (area : (i : ℕ) (a : SendArea) (w : W) → f (host.set_area i a w) ≡ f w) where
    taken-Fixed : (r : Result Writer) (p : MemoryPool) → Fixed (taken host r p)
    unfolding taken
    taken-Fixed (ok w) p s = pool p s.world
    taken-Fixed (throw e) p s = pool p s.world

    pub Fixed-new_stream : Fixed (new_stream host)
    unfolding new_stream
    Fixed-new_stream s = taken-Fixed _ _ s

    pub Fixed-copy_stream : (rhs : Writer) → Fixed (copy_stream host rhs)
    unfolding copy_stream
    Fixed-copy_stream rhs s = taken-Fixed _ _ s

    release-Fixed : (w : Writer) (v : W) → f (release host w v) ≡ f v
    unfolding release
    release-Fixed w v = pool _ v

    pub Fixed-drop_stream : (w : Writer) → Fixed (drop_stream host w)
    unfolding drop_stream
    Fixed-drop_stream w s = release-Fixed w s.world

    pub Fixed-build : (w : Writer) (r : Result Writer) → Fixed (build host w r)
    unfolding build
    Fixed-build w (ok w') s = refl
    Fixed-build w (throw e) s = release-Fixed w s.world

    holding_out-Fixed :
        {A : Type 0} (w : Writer) (v : W) (o : Out W A)
        → f (end_of o) ≡ f v
        → f (end_of (holding_out host w o)) ≡ f v
    unfolding holding_out
    holding_out-Fixed w v (done a s) h = h
    holding_out-Fixed w v (raised e s) h = release-Fixed w s.world ∙ h

    pub Fixed-holding : {A : Type 0} (w : Writer) (m : M W A) → Fixed m → Fixed (holding host w m)
    unfolding holding
    Fixed-holding w m h s = holding_out-Fixed w s.world (m s) (h s)

    sent-Fixed : (i : ℕ) (w : Writer) (r : Result Writer) (a : SendArea) → Fixed (sent host i w r a)
    unfolding sent
    sent-Fixed i w (ok w') a s = area i a s.world
    sent-Fixed i w (throw e) a s = release-Fixed w _ ∙ area i a s.world

    pub Fixed-send_on : (i : ℕ) (w : Writer) → Fixed (send_on host i w)
    unfolding send_on
    Fixed-send_on i w s = sent-Fixed i w _ _ s

pub ruleset fixed = (
  Fixed-bind, Fixed-pure, Fixed-skip, Fixed-raise, Fixed-read, Fixed-read_string,
  Fixed-read_long_string, Fixed-read_time, Fixed-request_empty, Fixed-request_rewind,
  Fixed-request_skip, Fixed-request_skip_string, Fixed-request_back, Fixed-write,
  Fixed-write_string, Fixed-write_time, Fixed-write_bytes, Fixed-respond, Fixed-respond_to,
  Fixed-get_world, Fixed-get_request, Fixed-lift, Fixed-if, Fixed-new_stream, Fixed-copy_stream,
  Fixed-drop_stream, Fixed-build, Fixed-holding, Fixed-send_on,
)
