-- ===== src/Handler/Server/Kept.antt =====
-- What every event of a server keeps of its state: a property `P` that the error handling, the timeouts and
-- the memory pool keep, and that the messages keep where a stronger one, `Q`, holds.
use lemon_server.Common.{ℕ, Bool, true, false, List, [], ◌∷◌, Option, none, some, if◌then◌else◌}
use lemon_server.Common.Bytes.{Bytes}
use lemon_server.Connection.Receive.{Handled, handle_data}
use lemon_server.Connection.Receive.Kept.{Ends, handle_data_lem}
use lemon_server.Connection.Send.{SendArea}
use lemon_server.Handler.Messages.{handle_message}
use lemon_server.Handler.Server.{
  Server, Node, receive, after_data, send_completed, sent_chunk, failed, second, callbacks,
  timeout_callback, connection_timeout_handler, wheel_count,
}
use lemon_server.Pool.{MemoryChunk, MemoryPool}
use lemon_server.Timer.Wheel.{tick, tick_handlers}

module _ {W : Type 0} (node : Node W) (P : W → Type 0) where
  module _ (errors : (i : ℕ) (w : W) → P w → P (node.do_error i w)) where
    pub failed_lem : (i : ℕ) (s : Server W) → P s.world → P (failed node i s).world
    unfolding failed
    failed_lem i s h = errors i s.world h

    after_data_lem :
        (i : ℕ) (s : Server W) (o : Option (Handled W))
        → P s.world
        → Ends P o
        → P (after_data node i s o).world
    unfolding after_data
    after_data_lem i s none h e = h
    after_data_lem i s (some d) h e = verdict d.good
      where
        verdict : (b : Bool) → P (if b then d.state else node.do_error i d.state)
        verdict true = e
        verdict false = errors i d.state e

    weaker :
        (Q : W → Type 0) → ((w : W) → Q w → P w) → (o : Option (Handled W)) → Ends Q o → Ends P o
    weaker Q sub none e = tt
    weaker Q sub (some d) e = sub d.state e

    pub receive_lem :
        (Q : W → Type 0) (i : ℕ) (bytes : Bytes) (s : Server W)
        → ((w : W) → Q w → P w)
        → ((m : Bytes) (w : W) → Q w → Q (handle_message node.host (node.handle i s.world) i m w).1)
        → Q s.world
        → P (receive node i bytes s).world
    unfolding receive
    receive_lem Q i bytes s sub keeps h =
        let o =
          handle_data (handle_message node.host (node.handle i s.world) i) bytes (s.areas i)
            s.world in
        after_data_lem i s o (sub s.world h) (
          weaker Q sub o (
            handle_data_lem (handle_message node.host (node.handle i s.world) i) Q keeps bytes
              (s.areas i) s.world h))

  module _ (pool : (p : MemoryPool) (w : W) → P w → P (node.host.set_pool p w))
      (area : (i : ℕ) (a : SendArea) (w : W) → P w → P (node.host.set_area i a w)) where
    sent_chunk_lem :
        (i : ℕ) (s : Server W) (o : Option (MemoryChunk × SendArea × MemoryPool))
        → P s.world
        → P (sent_chunk node i s o).world
    unfolding sent_chunk
    sent_chunk_lem i s none h = h
    sent_chunk_lem i s (some (c, a, p)) h = pool p _ (area i a s.world h)

    pub send_completed_lem : (i : ℕ) (s : Server W) → P s.world → P (send_completed node i s).world
    unfolding send_completed
    send_completed_lem i s h = sent_chunk_lem i s _ h

  module _ (timeouts : (i : ℕ) (w : W) → P w → P (node.timeout i w)) where
    callback_lem : (i : ℕ) (s : Server W) → P s.world → P (timeout_callback node i s).world
    unfolding timeout_callback connection_timeout_handler
    callback_lem i s h = again (node.is_valid i (node.timeout i s.world))
      where
        again :
            (b : Bool)
            → P
                (if b
                  then connection_timeout_handler node i
                      (record s { world = node.timeout i s.world })
                  else record s { world = node.timeout i s.world }).world
        again true = timeouts i s.world h
        again false = timeouts i s.world h

    callbacks_lem : (is : List ℕ) (s : Server W) → P s.world → P (callbacks node is s).world
    unfolding callbacks
    callbacks_lem [] s h = h
    callbacks_lem (i ∷ is) s h = callbacks_lem is (timeout_callback node i s) (callback_lem i s h)

    pub second_lem : (s : Server W) → P s.world → P (second node s).world
    unfolding second
    second_lem s h =
        callbacks_lem (tick_handlers wheel_count s.timer)
          (record s { timer = tick wheel_count s.timer }) h
