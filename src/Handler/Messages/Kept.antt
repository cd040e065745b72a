-- ===== src/Handler/Messages/Kept.antt =====
-- What every message keeps of a part `f` of the server's state that has neither the pool nor a send area,
-- nor a timeout count, in it.
use lemon_server.Common.{ℕ, ◌≡◌, refl, sym, ◌∙◌, Bool, true, false, ◌==◌, if◌then◌else◌}
use mathlib.Core.Path.{subst}
use lemon_server.Common.Bytes.{Bytes}
use lemon_server.Connection.Send.{SendArea}
use lemon_server.Handler.{Scene, Out, done, raised, M}
use lemon_server.Handler.Fixed.{end_of, Fixed-new_stream, Fixed-send_on}
use lemon_server.Handler.Host.{Host, release, send_on, new_stream}
use lemon_server.Handler.Leads.{Leads}
use lemon_server.Handler.Messages.{
  answer, respond_after, after_handle, after_stream, with_stream, received, handle_message,
  unanswered,
}
use lemon_server.Pool.{MemoryPool}
use lemon_server.Protocol.Errors.{Result, ok, throw}
use lemon_server.Protocol.Head.{is_response, need_response}
use lemon_server.Protocol.MessageId.{code, message_id_min_0x0000}
use lemon_server.Protocol.Stream.{Reader, Writer, new_reader}

module _ {W X : Type 0} (f : W → X) (host : Host W)
    (pool : (p : MemoryPool) (w : W) → f (host.set_pool p w) ≡ f w)
    (area : (i : ℕ) (a : SendArea) (w : W) → f (host.set_area i a w) ≡ f w)
    (reset : (i : ℕ) (w : W) → f (host.reset_timeout i w) ≡ f w) where
  verdict :
      (o : Out W (Unit {0}))
      → f
          (elim o as (λ _. Bool × W) [
            | done _ s ↦ (true, s.world)
            | raised e s ↦ (false, s.world)
          ]).1
        ≡ f (end_of o)
  verdict (done u s) = refl
  verdict (raised e s) = refl

  answer-f : (i : ℕ) (w : Writer) (s : Scene W) → f (answer host i w s).1 ≡ f s.world
  unfolding answer
  answer-f i w s = verdict (send_on host i w s) ∙ Fixed-send_on f host pool area i w s

  either :
      (b : Bool) (m n : Bool × W) {x : X} → f m.1 ≡ x → f n.1 ≡ x → f (if b then m else n).1 ≡ x
  either true m n h k = h
  either false m n h k = k

  respond_after-f : (i : ℕ) (s : Scene W) → f (respond_after host i s).1 ≡ f s.world
  unfolding respond_after release
  respond_after-f i s =
      either (s.response.head.id == code message_id_min_0x0000) _ _
        (either (need_response s.request.head) _ _ (answer-f i _ s) (pool _ s.world))
        (answer-f i s.response s)

  after_handle-f : (i : ℕ) (o : Out W (Unit {0})) → f (after_handle host i o).1 ≡ f (end_of o)
  unfolding after_handle release
  after_handle-f i (done u s) = respond_after-f i s
  after_handle-f i (raised e s) = pool _ s.world

  module _ (P : X → Type 0) (handle : M W (Unit {0})) (self : ℕ) (keeps : Leads f P P handle) where
    after_stream_lem :
        (o : Out W Writer) → P (f (end_of o)) → P (f (after_stream host handle self o).1)
    unfolding after_stream
    after_stream_lem (done response s) h =
        subst P (sym (after_handle-f self (handle (record s { response = response }))))
          (keeps (record s { response = response }) h)
    after_stream_lem (raised e s) h = h

    with_stream_lem : (r : Reader) (w : W) → P (f w) → P (f (with_stream host handle self r w).1)
    unfolding with_stream
    with_stream_lem r w h =
        after_stream_lem (new_stream host (unanswered r w))
          (subst P (sym (Fixed-new_stream f host pool area (unanswered r w))) h)

    received_lem : (r : Result Reader) (w : W) → P (f w) → P (f (received host handle self r w).1)
    unfolding received
    received_lem (throw e) w h = h
    received_lem (ok r) w h = one (is_response r.head) (subst P (sym (reset self w)) h)
      where
        one :
            (b : Bool)
            → P (f (host.reset_timeout self w))
            → P (
                f
                  (if b
                    then (true, host.reset_timeout self w)
                    else with_stream host handle self r (host.reset_timeout self w)).1)
        one true h = h
        one false h = with_stream_lem r (host.reset_timeout self w) h

    pub handle_message_lem :
        (bytes : Bytes) (w : W) → P (f w) → P (f (handle_message host handle self bytes w).1)
    unfolding handle_message
    handle_message_lem bytes w h = received_lem (new_reader bytes) w h
