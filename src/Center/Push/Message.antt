-- ===== src/Center/Push/Message.antt =====
-- src/center/icslocalserver.cpp: the message to the push system that `handleEventsReport` builds.
use lemon_server.Common.{ℕ}
use lemon_server.Common.Bytes.{Bytes}
use lemon_server.Center.World.{Client}
use lemon_server.Protocol.Errors.{Result, ◌>>=◌}
use lemon_server.Protocol.Stream.{Writer, IcsDataTime, put_number, put_string, put_time}

-- The monitoring point, the device kind, and the event's time, number and value.
unfoldable pub push_body : Client → IcsDataTime → ℕ → Bytes → Writer → Result Writer
unfolding put_number put_string put_time
push_body c event_time event_id event_value w = do
  w ← put_string 1 c.monitor_id w
  w ← put_number 2 c.device_kind w
  w ← put_time event_time w
  w ← put_number 2 event_id w
  put_string 1 event_value w
