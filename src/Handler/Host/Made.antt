-- ===== src/Handler/Host/Made.antt =====
-- What making a stream changes.
use lemon_server.Common.{◌≡◌, refl, ◌⊎◌, inl, inr}
use lemon_server.Handler.{Scene, Out, done, raised}
use lemon_server.Handler.Host.{Host, taken, new_stream}
use lemon_server.Pool.{MemoryPool}
use lemon_server.Protocol.Errors.{Exception, Result, ok, throw}
use lemon_server.Protocol.Stream.{Writer}

module _ {W : Type 0} (host : Host W) where
  abbrev pub with_pool : MemoryPool → Scene W → Scene W
  with_pool p s = record s { world = host.set_pool p s.world }

  -- A stream was made, or was not, and the pool has changed.
  abbrev pub Made : Scene W → Out W Writer → Type 0
  Made s o =
      ((w : Writer) × (p : MemoryPool) × (o ≡ done w (with_pool p s)))
      ⊎ ((e : Exception) × (p : MemoryPool) × (o ≡ raised e (with_pool p s)))

  made : (r : Result Writer) (p : MemoryPool) (s : Scene W) → Made s (taken host r p s)
  unfolding taken
  made (ok w) p s = inl (w, p, refl)
  made (throw e) p s = inr (e, p, refl)

  pub new_stream-Made : (s : Scene W) → Made s (new_stream host s)
  unfolding new_stream
  new_stream-Made s = made _ _ s
