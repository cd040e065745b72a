-- ===== src/Handler/Messages/Refusal.antt =====
-- Messages that a connection refuses: its `handle` throws before it has changed anything.
use mathlib.Core.Path.{subst}
use lemon_server.Common.{ℕ, ◌≡◌, refl, sym, Bool, false, arith, inl, inr}
use lemon_server.Common.Bytes.{Bytes}
use lemon_server.Handler.{M, Scene, Out, raised}
use lemon_server.Handler.Host.{Host, new_stream, release}
use lemon_server.Handler.Host.Made.{Made, new_stream-Made}
use lemon_server.Handler.Messages.{
  received, with_stream, after_handle, after_stream, unanswered, handle_message,
}
use lemon_server.Pool.{MemoryPool}
use lemon_server.Protocol.Errors.{Exception, Result, ok, throw}
use lemon_server.Protocol.Head.{head_of, is_response}
use lemon_server.Protocol.Stream.{Reader, Writer, new_reader}

pub new_reader-head : (buf : Bytes) (r : Reader) → new_reader buf ≡ ok r → r.head ≡ head_of buf
unfolding new_reader
new_reader-head buf r e = ground arith

-- A condition `Stop` under which `handle` throws at once, and a relation `Calm` of two states that
-- does not look at the pool and at the timeout count.
pub record Refusal {W : Type 0} (host : Host W) (handle : M W (Unit {0})) (self : ℕ)
    (Stop : Reader → W → Type 0) (Calm : W → W → Type 0) : Type 0 where
  pub stops : (s : Scene W) → Stop s.request s.world → (e : Exception) × (handle s ≡ raised e s)
  pub stop_pool : (r : Reader) (p : MemoryPool) (w : W) → Stop r w → Stop r (host.set_pool p w)
  pub stop_reset : (r : Reader) (w : W) → Stop r w → Stop r (host.reset_timeout self w)
  pub calm_refl : (w : W) → Calm w w
  pub calm_pool : (p : MemoryPool) (v w : W) → Calm v w → Calm v (host.set_pool p w)
  pub calm_reset : (w : W) → Calm w (host.reset_timeout self w)

module _ {W : Type 0} (host : Host W) (handle : M W (Unit {0})) (self : ℕ)
    (Stop : Reader → W → Type 0) (Calm : W → W → Type 0)
    (laws : Refusal host handle self Stop Calm) where
  abbrev Refused : W → Bool × W → Type 0
  Refused v r = (r.0 ≡ false) × Calm v r.1

  handled-Refused :
      (v : W) (s : Scene W)
      → Stop s.request s.world
      → Calm v s.world
      → Refused v (after_handle host self (handle s))
  unfolding after_handle release
  handled-Refused v s stop h =
      subst (λ o. Refused v (after_handle host self o)) (sym (laws.stops s stop).1)
        (refl, laws.calm_pool _ v s.world h)

  streamed-Refused :
      (v : W) (r : Reader) (w : W) (o : Out W Writer)
      → Made host (unanswered r w) o
      → Stop r w
      → Calm v w
      → Refused v (after_stream host handle self o)
  unfolding after_stream
  streamed-Refused v r w o (inl (response, p, e)) stop h =
      subst (λ o. Refused v (after_stream host handle self o)) (sym e)
        (handled-Refused v (record { world = host.set_pool p w; request = r; response = response })
          (laws.stop_pool r p w stop) (laws.calm_pool p v w h))
  streamed-Refused v r w o (inr (e, p, h')) stop h =
      subst (λ o. Refused v (after_stream host handle self o)) (sym h')
        (refl, laws.calm_pool p v w h)

  received-Refused :
      (o : Result Reader) (w : W)
      → ((r : Reader) → o ≡ ok r → (is_response r.head ≡ false) × Stop r w)
      → Refused w (received host handle self o w)
  unfolding received with_stream
  received-Refused (throw e) w h = (refl, laws.calm_refl w)
  received-Refused (ok r) w h = rw (h r refl).0 (
      streamed-Refused w r (host.reset_timeout self w)
        (new_stream host (unanswered r (host.reset_timeout self w)))
        (new_stream-Made host (unanswered r (host.reset_timeout self w)))
        (laws.stop_reset r w (h r refl).1) (laws.calm_reset w))

  pub message-Refused :
      (buf : Bytes) (w : W)
      → ((r : Reader) → new_reader buf ≡ ok r → (is_response r.head ≡ false) × Stop r w)
      → Refused w (handle_message host handle self buf w)
  unfolding handle_message
  message-Refused buf w h = received-Refused (new_reader buf) w h
