-- ===== src/Handler/Server.antt =====
-- What both servers have around their connections, src/center/icslocalserver.cpp and
-- src/proxy/icsproxyserver.cpp: the receive areas, the timer with `connectionTimeoutHandler`, and
-- the completion handlers of src/module/icsconnection.hpp. A step is one event of asio or of the
-- timer's thread.
pub mod Kept
pub mod Timeouts
use lemon_server.Common.{
  ℕ, suc, Bool, true, false, List, [], ◌∷◌, Option, none, some, ◌==◌, if◌then◌else◌,
}
use lemon_server.Common.Bytes.{Bytes}
use lemon_server.Connection.Receive.{RecvArea, Handled, handle_data}
use lemon_server.Connection.Send.{SendArea, send_done}
use lemon_server.Handler.{M}
use lemon_server.Handler.Host.{Host}
use lemon_server.Handler.Messages.{handle_message}
use lemon_server.Pool.{MemoryChunk, MemoryPool}
use lemon_server.Timer.Wheel.{TimingWheel, add, tick, tick_handlers}

-- `TimingWheel<64>`
abbrev pub wheel_count : ℕ
wheel_count = 64

-- A server, as its connections' completion handlers and its timer see it: the virtual `handle` of a
-- connection object, `do_error` and `timeout`, and what they leave there.
pub record Node (W : Type 0) : Type 0 where
  pub host : Host W
  pub handle : ℕ → W → M W (Unit {0})
  pub do_error : ℕ → W → W
  pub timeout : ℕ → W → W
  pub is_valid : ℕ → W → Bool
  pub heartbeat_time : W → ℕ

-- A handler in the timer is that of `connectionTimeoutHandler`, for a connection object.
pub record Server (W : Type 0) : Type 0 where
  pub world : W
  pub timer : TimingWheel ℕ
  pub areas : ℕ → RecvArea

-- The areas with nothing received for a new object.
unfoldable pub new_areas : ℕ → (ℕ → RecvArea) → ℕ → RecvArea
new_areas i areas j = if i == j then record (areas j) { recv_size = 0 } else areas j

module _ {W : Type 0} (node : Node W) where
  -- `connectionTimeoutHandler`
  unfoldable pub connection_timeout_handler : ℕ → Server W → Server W
  unfolding add
  connection_timeout_handler conn s = record s {
    timer = add wheel_count (node.heartbeat_time s.world) conn s.timer;
  }

  -- The handler that `connectionTimeoutHandler` registers.
  unfoldable pub timeout_callback : ℕ → Server W → Server W
  unfolding connection_timeout_handler
  timeout_callback conn s =
      let s' : Server W = record s { world = node.timeout conn s.world } in
      let again = connection_timeout_handler conn s' in
      if node.is_valid conn s'.world then again else s'

  unfoldable pub callbacks : List ℕ → Server W → Server W
  unfolding timeout_callback
  callbacks [] s = s
  callbacks (conn ∷ conns) s = callbacks conns (timeout_callback conn s)

  -- A round of the timer's loop.
  unfoldable pub second : Server W → Server W
  unfolding callbacks tick tick_handlers
  second s =
      callbacks (tick_handlers wheel_count s.timer) (record s { timer = tick wheel_count s.timer })

  -- What `handleData` leaves; on a bad message the connection ends.
  after_data : ℕ → Server W → Option (Handled W) → Server W
  after_data i s none = s
  after_data i s (some h) =
      let w = if h.good then h.state else node.do_error i h.state in
      record s { world = w; areas = λ j. if i == j then h.area else s.areas j }

  -- A completed `async_receive` of connection `i`.
  unfoldable pub receive : ℕ → Bytes → Server W → Server W
  unfolding handle_message handle_data after_data
  receive i bytes s =
      after_data i s
        (handle_data (handle_message node.host (node.handle i s.world) i) bytes (s.areas i) s.world)

  -- A completed `async_send` of connection `i`, if one was under way.
  sent_chunk : ℕ → Server W → Option (MemoryChunk × SendArea × MemoryPool) → Server W
  sent_chunk i s none = s
  sent_chunk i s (some (chunk, a, p)) = record s {
    world = node.host.set_pool p (node.host.set_area i a s.world);
  }

  unfoldable pub send_completed : ℕ → Server W → Server W
  unfolding sent_chunk send_done
  send_completed i s =
      sent_chunk i s (send_done (node.host.area i s.world) (node.host.pool s.world))

  -- A receive or a send that ends with an error.
  unfoldable pub failed : ℕ → Server W → Server W
  failed i s = record s { world = node.do_error i s.world }
