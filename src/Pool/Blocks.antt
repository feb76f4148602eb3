-- ===== src/Pool/Blocks.antt =====
-- Addresses and indices of the buffers in src/uffs_pool.c.
use esp_uffs.Prelude.{ℕ, ◌+◌, ◌-◌, ◌*◌, ◌/◌, ◌%◌, ◌<◌, ◌≤◌, ◌≡◌, ◌∙◌, ap, ◌↔◌, true, arith}
use esp_uffs.Pool.{Pool, returns, pool_verify, pool_get_buf_by_index, pool_get_index}
use esp_uffs.Pool.Chain.{IsBlock}
use native.Mathlib.Nat.{
  mul-mod_left, mul-div_cancel, div-add-mod', mul-lt-mul_of_pos_right, lt_of_mul-lt-mul_right,
  mul_comm, mul-le-mul_left,
}

module _ (pool : Pool) (mem_pos : 0 < pool.mem) (size_pos : 0 < pool.buf_size)
    (fits : pool.num_bufs * pool.buf_size < 4294967296) where
  block-inside : (i : ℕ) → i < pool.num_bufs → i * pool.buf_size < pool.num_bufs * pool.buf_size
  block-inside i h = mul-lt-mul_of_pos_right h size_pos

  block-verified : (p : ℕ) → IsBlock pool p → pool_verify pool p ≡ true
  unfolding pool_verify
  block-verified p (i, h, e) =
      let offset : p - pool.mem ≡ i * pool.buf_size = omega arith in
      let whole : (p - pool.mem) % pool.buf_size ≡ 0 =
        ap (λ (t : ℕ). t % pool.buf_size) offset ∙ mul-mod_left i pool.buf_size in
      let inside = block-inside i h in
      let swap : pool.buf_size * pool.num_bufs ≡ pool.num_bufs * pool.buf_size =
        mul_comm pool.buf_size pool.num_bufs in
      ground arith

  verified-IsBlock : (p : ℕ) → pool_verify pool p ≡ true → IsBlock pool p
  unfolding pool_verify
  verified-IsBlock p v =
      let i = (p - pool.mem) / pool.buf_size in
      let split = div-add-mod' (p - pool.mem) pool.buf_size in
      let swap : pool.buf_size * pool.num_bufs ≡ pool.num_bufs * pool.buf_size =
        mul_comm pool.buf_size pool.num_bufs in
      let whole : i * pool.buf_size ≡ p - pool.mem = ground arith in
      let start : pool.mem ≤ p = ground arith in
      let inside : p - pool.mem < pool.num_bufs * pool.buf_size = ground arith in
      (i, lt_of_mul-lt-mul_right pool.buf_size (omega arith), omega arith)

  -- For a pool in memory that fits a u32, uffs_PoolVerify accepts exactly the start addresses of its
  -- buffers.
  pub pool_verify-IsBlock : (p : ℕ) → (pool_verify pool p ≡ true) ↔ IsBlock pool p
  pool_verify-IsBlock p = (verified-IsBlock p, block-verified p)

  pub buf_by_index :
      (i : ℕ) → i < pool.num_bufs → pool_get_buf_by_index pool i ≡ pool.mem + i * pool.buf_size
  unfolding pool_get_buf_by_index
  buf_by_index i h = let inside = block-inside i h in ground arith

  pub index-block :
      (p i : ℕ)
      → i < pool.num_bufs
      → p ≡ pool.mem + i * pool.buf_size
      → pool_get_index pool p ≡ returns i
  unfolding pool_get_index
  index-block p i h e =
      let inside = block-inside i h in
      let least : i * 1 ≤ i * pool.buf_size = mul-le-mul_left i size_pos in
      let offset : p - pool.mem ≡ i * pool.buf_size = omega arith in
      let whole : (p - pool.mem) / pool.buf_size ≡ i =
        ap (λ (t : ℕ). t / pool.buf_size) offset ∙ mul-div_cancel i size_pos in
      ground arith

  -- For a pool in memory that fits a u32 and an index below num_bufs, uffs_PoolGetBufByIndex gives
  -- an address that uffs_PoolVerify accepts and from which uffs_PoolGetIndex gives the index back.
  pub pool_get_index-pool_get_buf_by_index :
      (i : ℕ)
      → i < pool.num_bufs
      → (pool_get_index pool (pool_get_buf_by_index pool i) ≡ returns i)
        × (pool_verify pool (pool_get_buf_by_index pool i) ≡ true)
  pool_get_index-pool_get_buf_by_index i h =
      let e = buf_by_index i h in (index-block _ i h e, block-verified _ (i, h, e))

  pub block-lt-end : (p : ℕ) → IsBlock pool p → p < pool.mem + pool.num_bufs * pool.buf_size
  block-lt-end p (i, h, e) = let inside = block-inside i h in omega arith
