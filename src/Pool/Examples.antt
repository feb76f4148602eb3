-- ===== src/Pool/Examples.antt =====
-- The pool of src/uffs_pool.c on concrete pools.
use esp_uffs.Prelude.{ℕ, ◌+◌, ◌*◌, ◌≡◌, refl, inl, [], ◌∷◌, true, false, arith, ◌⊎◌}
use esp_uffs.Pool.{
  Pool, returns, panics, pool_init, pool_verify, pool_get, pool_put, pool_check_free_list,
  pool_find_next_allocated,
}
use esp_uffs.Pool.Chain.{IsPool, Member, Absent}
use esp_uffs.Pool.Init.{buffers, pool_init-IsPool}
use esp_uffs.Pool.Walk.{pool_get-IsPool, pool_put-IsPool, pool_check_free_list-total}
use esp_uffs.Pool.Search.{
  NextAllocated, pool_find_next_allocated_last, pool_find_next_allocated-NextAllocated,
}

abbrev raw : Pool
raw = record { mem = 0; buf_size = 0; num_bufs = 0; free_list = 0; sem = false; next = λ x. 0 }

abbrev few : Pool
few = (pool_init 8 raw 1000 48 16 3 false).1

few-IsPool : IsPool few (buffers 1000 16 0 3)
few-IsPool =
    (pool_init-IsPool 8 raw 1000 48 16 3 false (omega arith) (omega arith) (omega arith)
      (omega arith) refl refl).1

pool_init-IsPool_example :
    ((pool_init 8 raw 1000 48 16 3 false).0 ≡ true)
    × IsPool ((pool_init 8 raw 1000 48 16 3 false).1) (buffers 1000 16 0 3)
pool_init-IsPool_example =
    pool_init-IsPool 8 raw 1000 48 16 3 false (omega arith) (omega arith) (omega arith)
      (omega arith) refl refl

get_one : (pool_get few).0 ≡ 1000
unfolding pool_get pool_init
get_one = refl

-- The first buffer is taken.
abbrev taken : Pool
taken = (pool_get few).1

taken-IsPool : IsPool taken (1016 ∷ 1032 ∷ [])
taken-IsPool = (pool_get-IsPool few 1000 (1016 ∷ 1032 ∷ []) few-IsPool).3

pool_get-IsPool_example :
    ((pool_get few).0 ≡ 1000)
    × (pool_verify few 1000 ≡ true)
    × Absent 1000 (1016 ∷ 1032 ∷ [])
    × IsPool ((pool_get few).1) (1016 ∷ 1032 ∷ [])
pool_get-IsPool_example = pool_get-IsPool few 1000 (1016 ∷ 1032 ∷ []) few-IsPool

pool_put-IsPool_example :
    ((pool_put taken 1000).0 ≡ true) × IsPool ((pool_put taken 1000).1) (1000 ∷ 1016 ∷ 1032 ∷ [])
unfolding pool_get pool_init pool_verify
pool_put-IsPool_example =
    pool_put-IsPool taken (1016 ∷ 1032 ∷ []) 1000 taken-IsPool refl (omega arith, (omega arith, tt))

pool_check_free_list-total_example :
    ((pool_check_free_list taken 1016 ≡ returns true) × Member 1016 (1016 ∷ 1032 ∷ []))
    ⊎ ((pool_check_free_list taken 1016 ≡ returns false) × Absent 1016 (1016 ∷ 1032 ∷ []))
pool_check_free_list-total_example =
    pool_check_free_list-total taken (1016 ∷ 1032 ∷ []) 1016 taken-IsPool

pool_find_next_allocated_last_example :
    pool_find_next_allocated few (few.mem + 2 * few.buf_size) ≡ panics
unfolding pool_init
pool_find_next_allocated_last_example =
    pool_find_next_allocated_last few (buffers 1000 16 0 3) 2 few-IsPool refl (omega arith)

abbrev many : Pool
many = (pool_init 8 raw 1000 640 16 40 false).1

many-IsPool : IsPool many (buffers 1000 16 0 40)
many-IsPool =
    (pool_init-IsPool 8 raw 1000 640 16 40 false (omega arith) (omega arith) (omega arith)
      (omega arith) refl refl).1

pool_find_next_allocated-NextAllocated_example :
    (r : ℕ) × (pool_find_next_allocated many 0 ≡ returns r)
    × NextAllocated many (buffers 1000 16 0 40) 0 r
unfolding pool_init
pool_find_next_allocated-NextAllocated_example =
    pool_find_next_allocated-NextAllocated many (buffers 1000 16 0 40) 0 0 many-IsPool (omega arith)
      (inl (refl, refl))
