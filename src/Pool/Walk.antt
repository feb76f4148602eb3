-- ===== src/Pool/Walk.antt =====
-- The operations of src/uffs_pool.c that take, give back and walk the free buffers.
use esp_uffs.Prelude.{
  write, Bool-cases, subst, ℕ, zero, suc, ◌+◌, ◌<◌, ◌≡◌, ◌≢◌, refl, sym, ◌∙◌, ap, ◌⊎◌, inl, inr,
  List, [], ◌∷◌, Bool, true, false, ◌==◌, if◌then◌else◌, arith, length,
}
use native.Mathlib.Nat.{zero-add}
use esp_uffs.Pool.{
  Pool, returns, pool_verify, pool_get, pool_put, in_free_list, pool_check_free_list, free_count,
  pool_get_free_count, walk_fuel,
}
use esp_uffs.Pool.Chain.{Chain, Member, Absent, AllBlocks, IsPool, Chain-write, free-le}
use esp_uffs.Pool.Blocks.{pool_verify-IsBlock}

memberb : ℕ → List ℕ → Bool
memberb p [] = false
memberb p (x ∷ xs) = let rest = memberb p xs in if x == p then true else rest

in_free_list-memberb :
    (fuel : ℕ) (next : ℕ → ℕ) (e : ℕ) (xs : List ℕ) (p : ℕ)
    → length xs < fuel
    → Chain next e xs
    → in_free_list fuel next e p ≡ returns (memberb p xs)
unfolding in_free_list memberb
in_free_list-memberb zero next e xs p h c = absurd (omega arith)
in_free_list-memberb (suc fuel) next e [] p h c = ground arith
in_free_list-memberb (suc fuel) next e (x ∷ xs) p h (here, nonzero, more) =
    let inner = in_free_list-memberb fuel next (next x) xs p (omega arith) more in
    rw here (ground arith)

memberb-Absent : (p : ℕ) (xs : List ℕ) → memberb p xs ≡ false → Absent p xs
unfolding memberb
memberb-Absent p [] h = tt
memberb-Absent p (x ∷ xs) h = ground (arith, memberb-Absent p xs)

memberb-Member : (p : ℕ) (xs : List ℕ) → memberb p xs ≡ true → Member p xs
unfolding memberb
memberb-Member p [] h = absurd (ground arith)
memberb-Member p (x ∷ xs) h = ground (arith, memberb-Member p xs)

free_count-length :
    (fuel : ℕ) (next : ℕ → ℕ) (e : ℕ) (xs : List ℕ) (count : ℕ)
    → length xs < fuel
    → Chain next e xs
    → free_count fuel next e count ≡ returns (count + length xs)
unfolding free_count
free_count-length zero next e xs count h c = absurd (omega arith)
free_count-length (suc fuel) next e [] count h c = ground arith
free_count-length (suc fuel) next e (x ∷ xs) count h (here, nonzero, more) =
    let inner = free_count-length fuel next (next x) xs (count + 1) (omega arith) more in
    let sum : count + 1 + length xs ≡ count + suc (length xs) = omega arith in
    rw here (ground arith)

-- On a good pool uffs_PoolGetFreeCount returns the number of free buffers.
pub pool_get_free_count-length :
    (pool : Pool) (xs : List ℕ) → IsPool pool xs → pool_get_free_count pool ≡ returns (length xs)
unfolding pool_get_free_count
pool_get_free_count-length pool xs v =
    free_count-length (walk_fuel pool) pool.next pool.free_list xs 0
      (omega (arith, free-le pool xs v)) v.chain
    ∙ ap returns (zero-add (length xs))

AllBlocks-same :
    (pool : Pool) (xs : List ℕ) (f : ℕ) (n : ℕ → ℕ)
    → AllBlocks pool xs
    → AllBlocks (record pool { free_list = f; next = n }) xs
AllBlocks-same pool [] f n h = tt
AllBlocks-same pool (x ∷ xs) f n h = (h.0, AllBlocks-same pool xs f n h.1)

-- Empty.
pub pool_get_empty : (pool : Pool) → IsPool pool [] → pool_get pool ≡ (0, pool)
unfolding pool_get
pool_get_empty pool v = rw v.chain refl

-- From a good pool with free buffers, uffs_PoolGet returns the first one, which uffs_PoolVerify
-- accepts and which is no longer free, and leaves a good pool with the others.
pub pool_get-IsPool :
    (pool : Pool) (x : ℕ) (xs : List ℕ)
    → IsPool pool (x ∷ xs)
    → ((pool_get pool).0 ≡ x)
      × (pool_verify pool x ≡ true)
      × Absent x xs
      × IsPool ((pool_get pool).1) xs
unfolding pool_get
pool_get-IsPool pool x xs v =
    let (here, nonzero, more) = v.chain in
    let taken : pool_get pool ≡ (x, record pool { free_list = pool.next x }) = ground arith in
    let after : Pool = record pool { free_list = pool.next x } in
    let good : IsPool after xs = record {
      mem_pos = v.mem_pos;
      size_pos = v.size_pos;
      fits = v.fits;
      chain = more;
      blocks = AllBlocks-same pool xs (pool.next x) pool.next v.blocks.1;
      distinct = v.distinct.1;
    } in
    (
      ap (λ r. r.0) taken,
      (pool_verify-IsBlock pool v.mem_pos v.size_pos v.fits x).1 v.blocks.0,
      v.distinct.0,
      subst (λ r. IsPool (r.1) xs) (sym taken) good,
    )

-- Putting a buffer that uffs_PoolVerify accepts and that is not free into a good pool succeeds and
-- leaves a good pool in which it is the first free buffer.
pub pool_put-IsPool :
    (pool : Pool) (xs : List ℕ) (p : ℕ)
    → IsPool pool xs
    → pool_verify pool p ≡ true
    → Absent p xs
    → ((pool_put pool p).0 ≡ true) × IsPool ((pool_put pool p).1) (p ∷ xs)
unfolding pool_put write
pool_put-IsPool pool xs p v h out =
    let block = (pool_verify-IsBlock pool v.mem_pos v.size_pos v.fits p).0 h in
    let nonzero : p ≢ 0 = let low = v.mem_pos in let (i, lt, e) = block in omega arith in
    let next = write pool.next p pool.free_list in
    let put : pool_put pool p ≡ (true, record pool { next = next; free_list = p }) = ground arith in
    let own : next p ≡ pool.free_list = ground arith in
    let after : Pool = record pool { next = next; free_list = p } in
    let good : IsPool after (p ∷ xs) = record {
      mem_pos = v.mem_pos;
      size_pos = v.size_pos;
      fits = v.fits;
      chain = (
        refl,
        nonzero,
        rw own (Chain-write pool.next pool.free_list xs p pool.free_list v.chain out),
      );
      blocks = (block, AllBlocks-same pool xs p next v.blocks);
      distinct = (out, v.distinct);
    } in
    (ap (λ r. r.0) put, subst (λ r. IsPool (r.1) (p ∷ xs)) (sym put) good)

-- On a good pool the walk of uffs_PoolCheckFreeList ends within num_bufs + 1 rounds, and it
-- answers true for the free buffers and false for every other address.
pub pool_check_free_list-total :
    (pool : Pool) (xs : List ℕ) (p : ℕ)
    → IsPool pool xs
    → ((pool_check_free_list pool p ≡ returns true) × Member p xs)
      ⊎ ((pool_check_free_list pool p ≡ returns false) × Absent p xs)
unfolding pool_check_free_list
pool_check_free_list-total pool xs p v =
    let answer =
      in_free_list-memberb (walk_fuel pool) pool.next pool.free_list xs p
        (omega (arith, free-le pool xs v)) v.chain in
    elim (Bool-cases (memberb p xs)) [
      | inl t ↦ inl (answer ∙ ap returns t, memberb-Member p xs t)
      | inr f ↦ inr (answer ∙ ap returns f, memberb-Absent p xs f)
    ]
