-- ===== src/Pool.antt =====
-- src/module/mempool.hpp and mempool.cpp: `MemoryChunk` and `MemoryPool`.
-- An address is a number, and a null pointer is `none`. Each function is one critical section of
-- `m_chunkLock`. The bytes behind an address belong to the stream that writes them: a chunk that
-- a stream hands over carries them in `content`.
pub mod Conservation
mod Tests
use lemon_server.Common.{
  ℕ, zero, suc, ◌+◌, ◌*◌, ◌<◌, Bool, true, false, List, [], ◌∷◌, ◌++◌, Option, none, some, ltb,
  ◌&&◌,
}
use lemon_server.Common.Bytes.{Bytes}

pub record MemoryChunk : Type 0 where
  pub address : Option ℕ
  pub length : ℕ
  pub content : Bytes

pub record MemoryPool : Type 0 where
  pub chunk_size : ℕ
  pub chunk_count : ℕ
  pub chunk_list : List ℕ

-- `MemoryChunk()`
unfoldable pub no_chunk : MemoryChunk
no_chunk = record { address = none; length = 0; content = [] }

abbrev is_some {ℓ} : {A : Type ℓ} → Option A → Bool
is_some none = false
is_some (some a) = true

-- `MemoryChunk::valid`
unfoldable pub valid : MemoryChunk → Bool
valid c = is_some c.address && ltb 0 c.length

-- The addresses `m_buff + i * m_chunkSize` for the `n` values of `i` from `from` on.
unfoldable pub addresses : ℕ → ℕ → ℕ → ℕ → List ℕ
addresses buff size from zero = []
addresses buff size from (suc n) = (buff + from * size) ∷ addresses buff size (suc from) n

-- `init`, where `new` returned the address `buff`.
unfoldable pub init : ℕ → ℕ → ℕ → MemoryPool
unfolding addresses
init buff size count = record {
  chunk_size = size;
  chunk_count = count;
  chunk_list = addresses buff size 0 count;
}

-- `get`: from the front; an invalid chunk when there is none.
get_from : MemoryPool → List ℕ → MemoryChunk × MemoryPool
unfolding no_chunk
get_from p [] = (no_chunk, p)
get_from p (a ∷ rest) = (
  record { address = some a; length = p.chunk_size; content = [] },
  record p { chunk_list = rest },
)

unfoldable pub get : MemoryPool → MemoryChunk × MemoryPool
unfolding get_from
get p = get_from p p.chunk_list

-- `put`: to the back, whatever the chunk's length; a null chunk is passed over.
unfoldable pub put_address : Option ℕ → MemoryPool → MemoryPool
put_address none p = p
put_address (some a) p = record p { chunk_list = p.chunk_list ++ a ∷ [] }

unfoldable pub put : MemoryChunk → MemoryPool → MemoryPool
unfolding put_address
put c p = put_address c.address p
