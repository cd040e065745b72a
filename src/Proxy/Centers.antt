-- ===== src/Proxy/Centers.antt =====
-- src/proxy/icsproxyserver.cpp: what a terminal's connection sends to all centers: `sendToIcsCenter`,
-- `forwardToIcsCenter` and `onoffLineToIcsCenter`.
pub mod Message
pub mod RoundTrip
pub mod Broadcast
use lemon_server.Common.{ℕ, true, false, List, [], ◌∷◌}
use lemon_server.Handler.Messages.{unanswered}
use lemon_server.Protocol.Head.{new_head}
use lemon_server.Protocol.MessageId.{
  code, c2c_forward_to_ics_0x4007, c2c_terminal_onoff_line_0x4006,
}
use lemon_server.Protocol.Stream.{Reader, Writer}
use lemon_server.Proxy.Centers.Message.{forward_body, onoff_line_body}
use lemon_server.Proxy.Monad.{
  M, Out, done, raised, ◌>>=◌, ◌>>◌, skip, get_request, get_world, request_rewind, copy_stream,
  holding, drop_stream, build, send_on, new_message,
}
use lemon_server.Proxy.World.{World, Client}

-- A copy for each center; a throw leaves the centers behind without one.
unfoldable pub send_to_each : List ℕ → Writer → M (Unit {0})
unfolding copy_stream send_on
send_to_each [] w = skip
send_to_each (i ∷ centers) w = do message ← copy_stream w; send_on i message; send_to_each centers w

unfoldable pub send_to_ics_center : Writer → M (Unit {0})
unfolding send_to_each
send_to_ics_center w = do v ← get_world; send_to_each v.ics_center_conn_map w

-- With a stream of the caller's own, which ends with the caller.
unfoldable pub send_and_drop : Writer → M (Unit {0})
unfolding holding send_to_ics_center drop_stream
send_and_drop w = do holding w (send_to_ics_center w); drop_stream w

unfoldable pub forward_to_ics_center : ℕ → M (Unit {0})
unfolding new_message request_rewind build forward_body send_and_drop
forward_to_ics_center self = do
  w ← new_message (code c2c_forward_to_ics_0x4007) false
  request_rewind
  r ← get_request
  v ← get_world
  w ← build w (forward_body (v.clients self).gwid r.head.id r w)
  send_and_drop w

-- `status` is 0 for online and 1 for offline.
unfoldable pub onoff_line_to_ics_center : ℕ → ℕ → M (Unit {0})
unfolding new_message build onoff_line_body send_and_drop
onoff_line_to_ics_center self status = do
  w ← new_message (code c2c_terminal_onoff_line_0x4006) false
  v ← get_world
  w ← build w (onoff_line_body (v.clients self) status w)
  send_and_drop w

-- Code that reads no request and makes no response, in a function that may not throw.
unfoldable pub unexpected : Out (Unit {0}) → World
unexpected (done _ s) = s.world
unexpected (raised e s) = record (s.world) { terminated = true }

unfoldable pub not_throwing : M (Unit {0}) → World → World
unfolding unexpected
not_throwing m w =
    unexpected (m (unanswered (record { head = new_head; before = []; after = [] }) w))
