-- ===== src/Handler/Messages.antt =====
-- src/module/icsconnection.hpp: `handleMessage`. The virtual `handle` is a parameter.
pub mod Refusal
pub mod Kept
use lemon_server.Common.{ℕ, Bool, true, false, List, [], none, ◌==◌, if◌then◌else◌}
use lemon_server.Common.Bytes.{Bytes}
use lemon_server.Handler.{Scene, Out, done, raised, M}
use lemon_server.Handler.Host.{Host, new_stream, release, send_on}
use lemon_server.Protocol.Errors.{Result, ok, throw}
use lemon_server.Protocol.Head.{new_head, is_response, need_response}
use lemon_server.Protocol.MessageId.{code, message_id_min_0x0000}
use lemon_server.Protocol.Stream.{Reader, Writer, new_reader, init_response}

-- The scene in which the response stream is made, which has no response yet.
abbrev pub unanswered : {W : Type 0} → Reader → W → Scene W
unanswered request w = record {
  world = w;
  request = request;
  response = record { start = none; head = new_head; body = []; room = 0 };
}

module _ {W : Type 0} (host : Host W) where
  -- `trySend(response)`, with whatever was caught.
  unfoldable pub answer : ℕ → Writer → Scene W → Bool × W
  unfolding send_on
  answer i response s = elim (send_on host i response s) [
    | done _ s' ↦ (true, s'.world)
    | raised e s' ↦ (false, s'.world)
  ]

  -- What follows `handle`: send the response if the handler made one, acknowledge the request if it
  -- asks for that, and else give the response's chunk back.
  unfoldable pub respond_after : ℕ → Scene W → Bool × W
  unfolding answer release need_response init_response
  respond_after i s =
      let sent = answer i s.response s in
      let head = s.request.head in
      let min = code message_id_min_0x0000 in
      let ack = record (s.response) { head = init_response min head.send_num s.response.head } in
      let acknowledged = answer i ack s in
      if s.response.head.id == min
      then (if need_response head then acknowledged else (true, release host s.response s.world))
      else sent

  -- However `handle` ends; a throw destroys the response.
  unfoldable pub after_handle : ℕ → Out W (Unit {0}) → Bool × W
  unfolding respond_after release
  after_handle i (done _ s) = respond_after i s
  after_handle i (raised e s) = (false, release host s.response s.world)

  module _ (handle : M W (Unit {0})) (self : ℕ) where
    unfoldable pub after_stream : Out W Writer → Bool × W
    unfolding after_handle
    after_stream (done response s) = after_handle self (handle (record s { response = response }))
    after_stream (raised e s) = (false, s.world)

    -- The response stream takes a chunk of the pool.
    unfoldable pub with_stream : Reader → W → Bool × W
    unfolding after_stream new_stream new_head
    with_stream request w = after_stream (new_stream host (unanswered request w))

    -- From a reading stream that was or was not made.
    unfoldable pub received : Result Reader → W → Bool × W
    unfolding with_stream is_response
    received (throw e) w = (false, w)
    received (ok request) w =
        if is_response request.head
        then (true, host.reset_timeout self w)
        else with_stream request (host.reset_timeout self w)

    unfoldable pub handle_message : Bytes → W → Bool × W
    unfolding received new_reader
    handle_message buf w = received (new_reader buf) w
