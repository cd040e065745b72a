-- ===== src/Pool/Conservation.antt =====
-- The pool hands no chunk out twice, whatever the order in which chunks come back.
use mathlib.Core.List.{Mem, Nodup, Perm, perm_middle, Nodup-cons, Nodup-nil, mem-cons, not-mem-nil}
use mathlib.Core.List.Perm
use mathlib.Core.Logic.Or
use native.Mathlib.Bridge.{le_prop}
use lemon_server.Common.{
  ℕ, zero, suc, ◌+◌, ◌*◌, ◌<◌, ◌≡◌, List, [], ◌∷◌, ◌++◌, none, some, All, arith, append-nil,
  append_assoc,
}
use lemon_server.Pool.{MemoryPool, MemoryChunk, init, get, get_from, put, addresses}

-- A pool with the chunks that its clients hold.
pub record Held : Type 0 where
  pub pool : MemoryPool
  pub held : List ℕ

-- What clients do: take a chunk, or bring back one that they hold. Bringing back a chunk that
-- nobody holds is what a client must not do.
pub data Step : Held → Held → Type 0 where
  took :
      {s : Held} {a : ℕ} {p : MemoryPool} {c : MemoryChunk}
      → get s.pool ≡ (c, p)
      → c.address ≡ some a
      → Step s (record { pool = p; held = a ∷ s.held })
  found_none :
      {s : Held} {p : MemoryPool} {c : MemoryChunk}
      → get s.pool ≡ (c, p)
      → c.address ≡ none
      → Step s (record { pool = p; held = s.held })
  gave :
      {s : Held} {a : ℕ} {rest : List ℕ} (c : MemoryChunk)
      → c.address ≡ some a
      → Perm s.held (a ∷ rest)
      → Step s (record { pool = put c s.pool; held = rest })

pub data Reach (s : Held) : Held → Type 0 where
  here : Reach s s
  next : {t u : Held} → Reach s t → Step t u → Reach s u

abbrev all_chunks : Held → List ℕ
all_chunks s = s.pool.chunk_list ++ s.held

get_took :
    (p : MemoryPool) (l : List ℕ) {q : MemoryPool} {c : MemoryChunk} {a : ℕ}
    → get_from p l ≡ (c, q)
    → c.address ≡ some a
    → l ≡ a ∷ q.chunk_list
unfolding get_from
get_took p [] e f = ground arith
get_took p (b ∷ rest) e f = ground arith

get_found_none :
    (p : MemoryPool) (l : List ℕ) {q : MemoryPool} {c : MemoryChunk}
    → get_from p l ≡ (c, q)
    → c.address ≡ none
    → q ≡ p
unfolding get_from
get_found_none p [] e f = ground arith
get_found_none p (b ∷ rest) e f = ground arith

put_list :
    (c : MemoryChunk) (p : MemoryPool) (a : ℕ)
    → c.address ≡ some a
    → (put c p).chunk_list ≡ p.chunk_list ++ a ∷ []
unfolding put
put_list c p a e = rw e

Step-perm : {s t : Held} → Step s t → Perm (all_chunks t) (all_chunks s)
unfolding get
Step-perm {s} (took {a} {p} e f) =
    rw (get_took s.pool s.pool.chunk_list e f) (perm_middle p.chunk_list s.held)
Step-perm {s} (found_none e f) = rw (get_found_none s.pool s.pool.chunk_list e f) (Perm.refl _)
Step-perm {s} (gave {a} {rest} c e f) =
    rw (put_list c s.pool a e, append_assoc s.pool.chunk_list (a ∷ []) rest)
      (Perm.append_left s.pool.chunk_list (Perm.symm f))

Reach-perm : {s t : Held} → Reach s t → Perm (all_chunks t) (all_chunks s)
Reach-perm here = Perm.refl _
Reach-perm (next r st) = Perm.trans (Step-perm st) (Reach-perm r)

addresses-above :
    (b buff size from n : ℕ)
    → b < buff + from * size
    → All (λ a. b < a) (addresses buff size from n)
unfolding addresses
addresses-above b buff size from zero h = tt
addresses-above b buff size from (suc n) h =
    (h, addresses-above b buff size (suc from) n (grind arith))

All-mem : {b a : ℕ} (xs : List ℕ) → All (λ x. b < x) xs → Mem a xs → b < a
All-mem [] h m = absurd (not-mem-nil m)
All-mem (x ∷ xs) h m = Or.elim le_prop (mem-cons.0 m) (λ e. rw e h.0) (All-mem xs h.1)

addresses-Nodup : (buff size from n : ℕ) → 0 < size → Nodup (addresses buff size from n)
unfolding addresses
addresses-Nodup buff size from zero h = Nodup-nil
addresses-Nodup buff size from (suc n) h = Nodup-cons.1 (
  (λ m. absurd (
      omega (
        arith,
        All-mem _ (addresses-above (buff + from * size) buff size (suc from) n (grind arith)) m,
      ))),
  addresses-Nodup buff size (suc from) n h,
)

-- From a pool just initialised with chunks of a positive size, and nothing handed out, every
-- sequence of `get`s and of `put`s of chunks that are held leaves each of the pool's chunks
-- exactly once among the free and the held ones: none is lost, and none is held twice.
pub Reach-init :
    (buff size count : ℕ) (t : Held)
    → 0 < size
    → Reach (record { pool = init buff size count; held = [] }) t
    → Perm (all_chunks t) (addresses buff size 0 count) × Nodup (all_chunks t)
unfolding init
Reach-init buff size count t h r =
    let p : Perm (all_chunks t) (addresses buff size 0 count) =
      rw (append-nil (addresses buff size 0 count)) at (Reach-perm r) in
    (p, Perm.nodup (Perm.symm p) (addresses-Nodup buff size 0 count h))
