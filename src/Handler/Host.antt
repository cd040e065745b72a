-- ===== src/Handler/Host.antt =====
-- src/module/icsconnection.hpp: what `IcsConnection` wants of the server that it is in. The server's
-- state has the memory pool, and the base part of each connection object.
pub mod Made
use lemon_server.Common.{ℕ, Option, none, some}
use lemon_server.Handler.{Scene, Out, done, raised, M}
use lemon_server.Connection.Send.{SendArea, send_message}
use lemon_server.Pool
use lemon_server.Pool.{MemoryChunk, MemoryPool}
use lemon_server.Protocol.Errors.{Exception, Result, ok, throw}
use lemon_server.Protocol.Stream.{Writer, new_writer, copy_writer}

pub record Host (W : Type 0) : Type 0 where
  pub pool : W → MemoryPool
  pub set_pool : MemoryPool → W → W
  pub area : ℕ → W → SendArea
  pub set_area : ℕ → SendArea → W → W
  pub reset_timeout : ℕ → W → W

module _ {W : Type 0} (host : Host W) where
  -- A stream on a chunk of the pool, once the pool has been asked.
  unfoldable pub taken : Result Writer → MemoryPool → M W Writer
  taken (ok w) p s = done w (record s { world = host.set_pool p s.world })
  taken (throw e) p s = raised e (record s { world = host.set_pool p s.world })

  -- `ProtocolStream w(writeType, g_memoryPool.get())`
  unfoldable pub new_stream : M W Writer
  unfolding taken Pool.get new_writer
  new_stream s =
      taken (new_writer (Pool.get (host.pool s.world)).0) (Pool.get (host.pool s.world)).1 s

  -- `ProtocolStream w(rhs, g_memoryPool.get())`
  unfoldable pub copy_stream : Writer → M W Writer
  unfolding taken Pool.get copy_writer
  copy_stream rhs s =
      taken (copy_writer rhs (Pool.get (host.pool s.world)).0) (Pool.get (host.pool s.world)).1 s

  -- A stream that goes out of scope gives its chunk back, unless it was handed over.
  unfoldable pub release : Writer → W → W
  unfolding Pool.put_address
  release w v = host.set_pool (Pool.put_address w.start (host.pool v)) v

  unfoldable pub drop_stream : Writer → M W (Unit {0})
  unfolding release
  drop_stream w s = done tt (record s { world = release w s.world })

  -- `w << ...` on a stream of the handler's own, which a throw destroys.
  unfoldable pub build : Writer → Result Writer → M W Writer
  unfolding release
  build w (ok w') s = done w' s
  build w (throw e) s = raised e (record s { world = release w s.world })

  -- Code that runs while the handler has a stream of its own, which a throw destroys.
  unfoldable pub holding_out : {A : Type 0} → Writer → Out W A → Out W A
  unfolding release
  holding_out w (done a s) = done a s
  holding_out w (raised e s) = raised e (record s { world = release w s.world })

  unfoldable pub holding : {A : Type 0} → Writer → M W A → M W A
  unfolding holding_out
  holding w m s = holding_out w (m s)

  -- `trySend` of the connection object `i`, with a stream of the handler's own.
  unfoldable pub sent : ℕ → Writer → Result Writer → SendArea → M W (Unit {0})
  unfolding release
  sent i w (ok w') a s = done tt (record s { world = host.set_area i a s.world })
  sent i w (throw e) a s = raised e (record s { world = release w (host.set_area i a s.world) })

  unfoldable pub send_on : ℕ → Writer → M W (Unit {0})
  unfolding sent send_message
  send_on i w s =
      sent i w (send_message w (host.area i s.world)).0 (send_message w (host.area i s.world)).1 s
