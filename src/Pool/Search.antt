-- ===== src/Pool/Search.antt =====
-- `uffs_PoolFindNextAllocated` of src/uffs_pool.c, in small and in large pools.
use esp_uffs.Prelude.{
  subst, ℕ, zero, suc, ◌+◌, ◌-◌, ◌*◌, ◌<◌, ◌≤◌, ◌≡◌, refl, sym, ◌∙◌, ap, ◌⊎◌, inl, inr, List, [],
  ◌∷◌, true, false, ◌==◌, le_or_lt, if◌then◌else◌, arith, length, bit_or, ltb,
}
use esp_uffs.Prelude.Words.{u32, ◌<<<◌}
use esp_uffs.Pool.{
  Pool, returns, panics, pool_verify, pool_get_index, mark_index, free_map,
  find_next_allocated_in_small_pool, with_map, start_search, pool_check_free_list, next_or_stop,
  skip_loop, verified, pool_find_next_allocated, walk_fuel,
}
use esp_uffs.Pool.Chain.{Chain, Member, Absent, AllBlocks, IsPool, free-le}
use esp_uffs.Pool.Blocks.{index-block, pool_verify-IsBlock}
use esp_uffs.Pool.Walk.{pool_check_free_list-total}
use native.Mathlib.Nat.{mul_comm, add-mul, one-mul, zero-mul}

free_map-returns :
    (pool : Pool) (fuel : ℕ) (e : ℕ) (xs : List ℕ) (map : ℕ)
    → 0 < pool.mem
    → 0 < pool.buf_size
    → pool.num_bufs * pool.buf_size < 4294967296
    → length xs < fuel
    → Chain pool.next e xs
    → AllBlocks pool xs
    → (m : ℕ) × (free_map fuel pool e map ≡ returns m)
unfolding free_map mark_index
free_map-returns pool zero e xs map low pos fits h c b = absurd (omega arith)
free_map-returns pool (suc fuel) e [] map low pos fits h c b = (map, ground arith)
free_map-returns pool (suc fuel) e (x ∷ xs) map low pos fits h (here, nonzero, more)
      ((i, lt, at), b) =
    let index = index-block pool low pos fits x i lt at in
    let (m, rest) =
      free_map-returns pool fuel (pool.next x) xs (bit_or map (u32 (1 <<< i))) low pos fits
        (omega arith) more b in
    let go : free_map (suc fuel) pool x map
        ≡ mark_index (pool_get_index pool x) map (free_map fuel pool (pool.next x)) =
      ground arith in
    (m, ap (λ t. free_map (suc fuel) pool t map) here ∙ go ∙ rw index rest)

index-end :
    (pool : Pool)
    → pool.num_bufs * pool.buf_size < 4294967296
    → pool_get_index pool (pool.mem + pool.num_bufs * pool.buf_size) ≡ panics
unfolding pool_get_index
index-end pool fits = ground arith

-- In a good pool of fewer than 32 buffers, uffs_PoolFindNextAllocated, given the last buffer, ends
-- in uffs_Panic instead of returning NULL.
pub pool_find_next_allocated_last :
    (pool : Pool) (xs : List ℕ) (n : ℕ)
    → IsPool pool xs
    → pool.num_bufs ≡ suc n
    → n < 31
    → pool_find_next_allocated pool (pool.mem + n * pool.buf_size) ≡ panics
unfolding pool_find_next_allocated find_next_allocated_in_small_pool with_map start_search
pool_find_next_allocated_last pool xs n v size small =
    let low = v.mem_pos in
    let sum = add-mul n 1 pool.buf_size in
    let one = one-mul pool.buf_size in
    let all : pool.num_bufs * pool.buf_size ≡ (n + 1) * pool.buf_size =
      ap (λ (t : ℕ). t * pool.buf_size) (omega arith) in
    let (m, map) =
      free_map-returns pool (walk_fuel pool) pool.free_list xs 0 v.mem_pos v.size_pos v.fits
        (omega (arith, free-le pool xs v)) v.chain v.blocks in
    let start : pool.mem + n * pool.buf_size + pool.buf_size
        ≡ pool.mem + pool.num_bufs * pool.buf_size =
      omega arith in
    let from_somewhere : (pool.mem + n * pool.buf_size == 0) ≡ false = ground arith in
    let few : ltb pool.num_bufs 32 ≡ true = ground arith in
    rw (from_somewhere, few, map, start, index-end pool v.fits) refl

-- What a search from index `i` on promises of its result `r`.
pub record NextAllocated (pool : Pool) (xs : List ℕ) (i r : ℕ) : Type 0 where
  pub index : ℕ
  pub from_here : i ≤ index
  pub in_pool : index ≤ pool.num_bufs
  pub passed : (k : ℕ) → i ≤ k → k < index → Member (pool.mem + k * pool.buf_size) xs
  pub found :
      ((index < pool.num_bufs)
        × Absent (pool.mem + index * pool.buf_size) xs
        × (r ≡ pool.mem + index * pool.buf_size))
      ⊎ ((index ≡ pool.num_bufs) × (r ≡ 0))

-- A buffer that the walk finds free is passed, and the search goes on behind it.
further :
    (pool : Pool) (xs : List ℕ) (i r : ℕ)
    → Member (pool.mem + i * pool.buf_size) xs
    → NextAllocated pool xs (i + 1) r
    → NextAllocated pool xs i r
further pool xs i r here next = record {
  index = next.index;
  from_here = let h = next.from_here in omega arith;
  in_pool = next.in_pool;
  passed = λ k low high. elim (le_or_lt k i) [
    | inl le ↦
        let same : i ≡ k = omega arith in
        subst (λ t. Member (pool.mem + t * pool.buf_size) xs) same here
    | inr lt ↦ next.passed k (omega arith) high
  ];
  found = next.found;
}

verified-block :
    (pool : Pool) (xs : List ℕ) (i : ℕ)
    → IsPool pool xs
    → i < pool.num_bufs
    → pool_verify pool (pool.mem + i * pool.buf_size) ≡ true
verified-block pool xs i v h =
    (pool_verify-IsBlock pool v.mem_pos v.size_pos v.fits _).1 (i, h, refl)

verify-end :
    (pool : Pool)
    → pool.num_bufs * pool.buf_size < 4294967296
    → pool_verify pool (pool.mem + pool.num_bufs * pool.buf_size) ≡ false
unfolding pool_verify
verify-end pool fits = let swap = mul_comm pool.buf_size pool.num_bufs in ground arith

ends-here : (pool : Pool) (xs : List ℕ) → NextAllocated pool xs pool.num_bufs 0
ends-here pool xs = record {
  index = pool.num_bufs;
  from_here = omega arith;
  in_pool = omega arith;
  passed = λ k low high. absurd (omega arith);
  found = inr (refl, refl);
}

stops-here :
    (pool : Pool) (xs : List ℕ) (i : ℕ)
    → i < pool.num_bufs
    → Absent (pool.mem + i * pool.buf_size) xs
    → NextAllocated pool xs i (pool.mem + i * pool.buf_size)
stops-here pool xs i h out = record {
  index = i;
  from_here = omega arith;
  in_pool = omega arith;
  passed = λ k low high. absurd (omega arith);
  found = inl (h, out, refl);
}

skip_loop-NextAllocated :
    (pool : Pool) (xs : List ℕ) (fuel i : ℕ)
    → IsPool pool xs
    → i ≤ pool.num_bufs
    → pool.num_bufs - i < fuel
    → (r : ℕ) × (verified pool (skip_loop fuel pool (pool.mem + i * pool.buf_size)) ≡ returns r)
      × NextAllocated pool xs i r
unfolding skip_loop next_or_stop verified pool_check_free_list
skip_loop-NextAllocated pool xs zero i v le h = absurd (omega arith)
skip_loop-NextAllocated pool xs (suc fuel) i v le h =
    let p = pool.mem + i * pool.buf_size in
    elim (le_or_lt pool.num_bufs i) [
      | inl ge ↦
          let same : i ≡ pool.num_bufs = omega arith in
          let out : pool_verify pool p ≡ false =
            ap (λ (t : ℕ). pool_verify pool (pool.mem + t * pool.buf_size)) same
            ∙ verify-end pool v.fits in
          (
            0,
            rw (out, out) refl,
            subst (λ t. NextAllocated pool xs t 0) (sym same) (ends-here pool xs),
          )
      | inr lt ↦
          let good = verified-block pool xs i v lt in
          elim (pool_check_free_list-total pool xs p v) [
            | inl (walk, here) ↦
                let (r, rest, next) =
                  skip_loop-NextAllocated pool xs fuel (i + 1) v (omega arith) (omega arith) in
                let sum = add-mul i 1 pool.buf_size in
                let one = one-mul pool.buf_size in
                let step : p + pool.buf_size ≡ pool.mem + (i + 1) * pool.buf_size = omega arith in
                (r, rw (good, walk, step) rest, further pool xs i r here next)
            | inr (walk, out) ↦ (p, rw (good, walk, good) refl, stops-here pool xs i lt out)
          ]
    ]

-- Where a search starts: at the first buffer, or behind the one it is given.
abbrev pub StartsAt : Pool → ℕ → ℕ → Type 0
StartsAt pool from i =
    ((from ≡ 0) × (i ≡ 0))
    ⊎ ((k : ℕ) × (k < pool.num_bufs) × (from ≡ pool.mem + k * pool.buf_size) × (i ≡ suc k))

start-address :
    (pool : Pool) (from i : ℕ)
    → 0 < pool.mem
    → StartsAt pool from i
    → ((if from == 0 then pool.mem else from + pool.buf_size) ≡ pool.mem + i * pool.buf_size)
      × (i ≤ pool.num_bufs)
start-address pool from i low (inl (e, e')) =
    let none_yet : i * pool.buf_size ≡ 0 =
      ap (λ (t : ℕ). t * pool.buf_size) e' ∙ zero-mul pool.buf_size in
    (ground arith, omega arith)
start-address pool from i low (inr (k, h, e, e')) =
    let sum = add-mul k 1 pool.buf_size in
    let one = one-mul pool.buf_size in
    let step : i * pool.buf_size ≡ (k + 1) * pool.buf_size =
      ap (λ (t : ℕ). t * pool.buf_size) (omega arith) in
    (ground arith, omega arith)

full-pool :
    (pool : Pool) (i : ℕ)
    → IsPool pool []
    → i ≤ pool.num_bufs
    → (r : ℕ) × (verified pool (returns (pool.mem + i * pool.buf_size)) ≡ returns r)
      × NextAllocated pool [] i r
unfolding verified
full-pool pool i v le = elim (le_or_lt pool.num_bufs i) [
  | inl ge ↦
      let same : i ≡ pool.num_bufs = omega arith in
      let out : pool_verify pool (pool.mem + i * pool.buf_size) ≡ false =
        ap (λ (t : ℕ). pool_verify pool (pool.mem + t * pool.buf_size)) same
        ∙ verify-end pool v.fits in
      (0, rw out refl, subst (λ t. NextAllocated pool [] t 0) (sym same) (ends-here pool []))
  | inr lt ↦ (
    pool.mem + i * pool.buf_size,
    rw (verified-block pool [] i v lt) refl,
    stops-here pool [] i lt tt,
  )
]

-- In a good pool of at least 32 buffers, uffs_PoolFindNextAllocated, given NULL or a buffer, ends
-- with the first buffer from the start or behind the given one that is not free, or with NULL when
-- all of those are free.
pub pool_find_next_allocated-NextAllocated :
    (pool : Pool) (xs : List ℕ) (from i : ℕ)
    → IsPool pool xs
    → 32 ≤ pool.num_bufs
    → StartsAt pool from i
    → (r : ℕ) × (pool_find_next_allocated pool from ≡ returns r) × NextAllocated pool xs i r
unfolding pool_find_next_allocated
pool_find_next_allocated-NextAllocated pool [] from i v large start =
    let (at, le) = start-address pool from i v.mem_pos start in
    let many : ltb pool.num_bufs 32 ≡ false = ground arith in
    let all_taken : (pool.free_list == 0) ≡ true = let nothing = v.chain in ground arith in
    rw (many, all_taken, at) (full-pool pool i v le)
pool_find_next_allocated-NextAllocated pool (x ∷ xs) from i v large start =
    let (at, le) = start-address pool from i v.mem_pos start in
    let many : ltb pool.num_bufs 32 ≡ false = ground arith in
    let (here, nonzero, more) = v.chain in
    let some_free : (pool.free_list == 0) ≡ false = ground arith in
    rw (many, some_free, at)
      (skip_loop-NextAllocated pool (x ∷ xs) (walk_fuel pool) i v le (omega arith))
