-- ===== src/Pool/Init.antt =====
-- `uffs_PoolInit` of src/uffs_pool.c links every buffer into the free list, in address order.
use esp_uffs.Prelude.{
  write, ℕ, zero, suc, ◌+◌, ◌-◌, ◌*◌, ◌%◌, ◌<◌, ◌≤◌, ◌≡◌, ◌≢◌, refl, sym, ◌∙◌, ap, List, [], ◌∷◌,
  Bool, true, ◌==◌, arith, subst, not, ◌&&◌, ltb,
}
use esp_uffs.Prelude.Words.{u32}
use esp_uffs.Pool.{Pool, link_loop, pool_init}
use esp_uffs.Pool.Chain.{Chain, Absent, Distinct, AllBlocks, IsPool}
use native.Mathlib.Nat.{add-mul, mul-lt-mul_of_pos_right, mul-le-mul_right}

-- The addresses of `k` buffers from index `i` on.
abbrev pub buffers : ℕ → ℕ → ℕ → ℕ → List ℕ
buffers mem size i zero = []
buffers mem size i (suc k) = (mem + i * size) ∷ buffers mem size (i + 1) k

link_loop-below :
    (rounds i mem size e1 : ℕ) (next : ℕ → ℕ) (a : ℕ)
    → 0 < size
    → e1 ≡ mem + i * size
    → (i + rounds) * size < 4294967296
    → a < e1
    → link_loop rounds (i + 1) mem size e1 next a ≡ next a
unfolding link_loop write
link_loop-below zero i mem size e1 next a pos e fits h = ground arith
link_loop-below (suc rounds) i mem size e1 next a pos e fits h =
    let up = add-mul i 1 size in
    let whole : (i + 1 + rounds) * size ≡ (i + suc rounds) * size =
      ap (λ (t : ℕ). t * size) (omega arith) in
    let step : (i + 1) * size ≤ (i + suc rounds) * size = mul-le-mul_right size (omega arith) in
    let e2 : mem + u32 ((i + 1) * size) ≡ mem + (i + 1) * size = omega arith in
    let rec =
      link_loop-below rounds (i + 1) mem size (mem + u32 ((i + 1) * size))
        (write next e1 (mem + u32 ((i + 1) * size))) a pos e2 (omega arith) (omega arith) in
    rec ∙ ground arith

link_loop-Chain :
    (rounds i mem size e1 : ℕ) (next : ℕ → ℕ)
    → 0 < mem
    → 0 < size
    → e1 ≡ mem + i * size
    → (i + rounds) * size < 4294967296
    → Chain (link_loop rounds (i + 1) mem size e1 next) e1 (buffers mem size i (suc rounds))
unfolding link_loop write
link_loop-Chain zero i mem size e1 next low pos e fits = (e, omega arith, ground arith)
link_loop-Chain (suc rounds) i mem size e1 next low pos e fits =
    let up = add-mul i 1 size in
    let whole : (i + 1 + rounds) * size ≡ (i + suc rounds) * size =
      ap (λ (t : ℕ). t * size) (omega arith) in
    let step : (i + 1) * size ≤ (i + suc rounds) * size = mul-le-mul_right size (omega arith) in
    let e2 : mem + u32 ((i + 1) * size) ≡ mem + (i + 1) * size = omega arith in
    let next' = write next e1 (mem + u32 ((i + 1) * size)) in
    let own : next' e1 ≡ mem + u32 ((i + 1) * size) = ground arith in
    let kept =
      link_loop-below rounds (i + 1) mem size (mem + u32 ((i + 1) * size)) next' e1 pos e2
        (omega arith) (omega arith) in
    let rest =
      link_loop-Chain rounds (i + 1) mem size (mem + u32 ((i + 1) * size)) next' low pos e2
        (omega arith) in
    (
      e,
      omega arith,
      subst
          (λ t.
            Chain (link_loop (suc rounds) (i + 1) mem size e1 next) t
              (buffers mem size (i + 1) (suc rounds)))
          (sym (kept ∙ own) ∙ ap (link_loop (suc rounds) (i + 1) mem size e1 next) e) rest,
    )

buffers-Absent :
    (mem size i j k : ℕ) → 0 < size → j < i → Absent (mem + j * size) (buffers mem size i k)
buffers-Absent mem size i j zero pos h = tt
buffers-Absent mem size i j (suc k) pos h =
    let less = mul-lt-mul_of_pos_right h pos in
    (omega arith, buffers-Absent mem size (i + 1) j k pos (omega arith))

buffers-Distinct : (mem size i k : ℕ) → 0 < size → Distinct (buffers mem size i k)
buffers-Distinct mem size i zero pos = tt
buffers-Distinct mem size i (suc k) pos =
    (buffers-Absent mem size (i + 1) i k pos (omega arith), buffers-Distinct mem size (i + 1) k pos)

buffers-AllBlocks :
    (pool : Pool) (i k : ℕ)
    → i + k ≤ pool.num_bufs
    → AllBlocks pool (buffers pool.mem pool.buf_size i k)
buffers-AllBlocks pool i zero h = tt
buffers-AllBlocks pool i (suc k) h =
    ((i, omega arith, refl), buffers-AllBlocks pool (i + 1) k (omega arith))

-- uffs_PoolInit, given at least one buffer, a buffer size that is not 0 and aligned, and a
-- non-NULL memory of num_bufs * buf_size bytes that fits a u32, returns success and a good pool
-- whose free list holds every buffer in address order.
pub pool_init-IsPool :
    (ptr_size : ℕ) (pool : Pool) (mem mem_size buf_size num_bufs : ℕ) (lock : Bool)
    → mem ≢ 0
    → 0 < num_bufs
    → 0 < buf_size
    → num_bufs * buf_size < 4294967296
    → buf_size % ptr_size ≡ 0
    → mem_size ≡ num_bufs * buf_size
    → let r = pool_init ptr_size pool mem mem_size buf_size num_bufs lock in
      (r.0 ≡ true) × IsPool (r.1) (buffers mem buf_size 0 num_bufs)
unfolding pool_init
pool_init-IsPool ptr_size pool mem mem_size buf_size zero lock hm hn hs fits align size =
    absurd (omega arith)
pool_init-IsPool ptr_size pool mem mem_size buf_size (suc n) lock hm hn hs fits align size =
    let linked = link_loop n 1 mem buf_size mem pool.next in
    let after : Pool = record {
      mem = mem;
      buf_size = buf_size;
      num_bufs = suc n;
      free_list = mem;
      sem = lock;
      next = linked;
    } in
    let done : pool_init ptr_size pool mem mem_size buf_size (suc n) lock ≡ (true, after) =
      let pred : suc n - 1 ≡ n = omega arith in
      let tests : (not (mem == 0)
            && ltb 0 (suc n)
            && (buf_size % ptr_size == 0)
            && (mem_size == u32 (suc n * buf_size)))
          ≡ true =
        ground arith in
      rw (tests, pred) refl in
    let part : (0 + n) * buf_size ≤ suc n * buf_size = mul-le-mul_right buf_size (omega arith) in
    let good : IsPool after (buffers mem buf_size 0 (suc n)) = record {
      mem_pos = omega arith;
      size_pos = hs;
      fits = fits;
      chain =
          link_loop-Chain n 0 mem buf_size mem pool.next (omega arith) hs (omega arith)
            (omega (arith, part));
      blocks = buffers-AllBlocks after 0 (suc n) (omega arith);
      distinct = buffers-Distinct mem buf_size 0 (suc n) hs;
    } in
    (ap (λ r. r.0) done, subst (λ r. IsPool (r.1) (buffers mem buf_size 0 (suc n))) (sym done) good)
