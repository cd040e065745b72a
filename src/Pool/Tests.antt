-- ===== src/Pool/Tests.antt =====
-- A pool of two chunks, one of which is taken.
use mathlib.Core.List.{Nodup, Perm}
use lemon_server.Common.{ℕ, refl, [], ◌∷◌, some, arith}
use lemon_server.Pool.{init, addresses, get}
use lemon_server.Pool.Conservation.{Held, took, Reach, here, next, Reach-init}

abbrev one_taken : Held
one_taken = record {
  pool = record { chunk_size = 512; chunk_count = 2; chunk_list = 1512 ∷ [] };
  held = 1000 ∷ [];
}

one_taken-Reach : Reach (record { pool = init 1000 512 2; held = [] }) one_taken
unfolding init get
one_taken-Reach =
    next here (took {c = record { address = some 1000; length = 512; content = [] }} refl refl)

Reach-init_example :
    Perm {A = ℕ} (1512 ∷ 1000 ∷ []) (addresses 1000 512 0 2) × Nodup {A = ℕ} (1512 ∷ 1000 ∷ [])
Reach-init_example = Reach-init 1000 512 2 one_taken (omega arith) one_taken-Reach
