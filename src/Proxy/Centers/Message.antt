-- ===== src/Proxy/Centers/Message.antt =====
-- src/proxy/icsproxyserver.cpp: the messages to the centers that `forwardToIcsCenter` and
-- `onoffLineToIcsCenter` build.
use lemon_server.Common.{ℕ}
use lemon_server.Common.Bytes.{Bytes}
use lemon_server.Protocol.Errors.{Result, ◌>>=◌}
use lemon_server.Protocol.Stream.{Reader, Writer, put_number, put_string, put_rest}
use lemon_server.Proxy.World.{Client}

-- `forward << m_gwid << msgid << request`
unfoldable pub forward_body : Bytes → ℕ → Reader → Writer → Result Writer
unfolding put_string put_number put_rest
forward_body gwid msgid r w = do w ← put_string 1 gwid w; w ← put_number 2 msgid w; put_rest r w

-- `forward << m_gwid << m_deviceKind << status`
unfoldable pub onoff_line_body : Client → ℕ → Writer → Result Writer
unfolding put_string put_number
onoff_line_body c status w = do
  w ← put_string 1 c.gwid w
  w ← put_number 2 c.device_kind w
  put_number 1 status w
