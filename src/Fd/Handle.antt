-- ===== src/Fd/Handle.antt =====
-- Which descriptors `CHK_OBJ_LOCK` of src/uffs_fd.c accepts.
use esp_uffs.Prelude.{
  ℕ, ◌+◌, ◌-◌, ◌*◌, ◌/◌, ◌<◌, ◌≤◌, ◌≡◌, ◌≢◌, refl, ◌∙◌, List, true, false, none, some, ◌==◌, ==_iff,
  ltb, arith, all_below, all_below_sound, bit_or, bit_and, inl, inr, ◌⊎◌,
}
use esp_uffs.Bits.{and-mask}
use esp_uffs.Pool.{Pool, returns, pool_check_free_list}
use esp_uffs.Pool.Chain.{IsPool, Member, Absent}
use esp_uffs.Pool.Blocks.{index-block, buf_by_index, pool_verify-IsBlock}
use esp_uffs.Pool.Walk.{pool_check_free_list-total}
use esp_uffs.Fd.{obj2fd, with_index, chk_obj, unless_free}
use esp_uffs.Fd.Signature.{after_formats, after_formats-ne}

fields_check : all_below 102 (λ s. all_below 64 (λ i. bit_or i (s * 64) == s * 64 + i)) ≡ true
unfolding all_below
fields_check = refl

fields : (s i : ℕ) → s < 102 → i < 64 → bit_or i (s * 64) ≡ s * 64 + i
fields s i hs hi =
    (==_iff _ _).0 (all_below_sound 64 _ i (all_below_sound 102 _ s fields_check hs) hi)

-- The descriptor of a buffer, in numbers.
obj2fd-block :
    (pool : Pool) (xs : List ℕ) (sig i : ℕ)
    → IsPool pool xs
    → pool.num_bufs ≤ 64
    → sig < 102
    → i < pool.num_bufs
    → obj2fd pool sig (pool.mem + i * pool.buf_size) ≡ returns (sig * 64 + i + 3)
unfolding obj2fd with_index
obj2fd-block pool xs sig i v small hs hi =
    let index =
      index-block pool v.mem_pos v.size_pos v.fits (pool.mem + i * pool.buf_size) i hi refl in
    rw (index, fields sig i hs (omega arith)) refl

chk_obj-other :
    (pool : Pool) (sig now i : ℕ)
    → i < 64
    → now ≢ sig
    → chk_obj pool now (sig * 64 + i + 3) ≡ returns none
unfolding chk_obj
chk_obj-other pool sig now i hi ne = ground arith

chk_obj-same :
    (pool : Pool) (xs : List ℕ) (sig i : ℕ)
    → IsPool pool xs
    → i < 64
    → i < pool.num_bufs
    → let obj = pool.mem + i * pool.buf_size in
      chk_obj pool sig (sig * 64 + i + 3) ≡ unless_free (pool_check_free_list pool obj) obj
unfolding chk_obj
chk_obj-same pool xs sig i v hi h =
    let back : (sig * 64 + i + 3) - 3 ≡ sig * 64 + i = omega arith in
    let index : bit_and (sig * 64 + i) 63 ≡ i = and-mask 6 (sig * 64 + i) ∙ omega arith in
    let obj = buf_by_index pool v.mem_pos v.size_pos v.fits i h in
    let good =
      (pool_verify-IsBlock pool v.mem_pos v.size_pos v.fits (pool.mem + i * pool.buf_size)).1
        (i, h, refl) in
    let low = v.mem_pos in
    let real : (pool.mem + i * pool.buf_size == 0) ≡ false = ground arith in
    let large : ltb (sig * 64 + i + 3) 3 ≡ false = ground arith in
    let signed : ((sig * 64 + i) / 64 == sig) ≡ true = ground arith in
    rw (large, back, signed, index, obj, real, good) refl

-- In a good object pool of at most 64 objects, with a signature below 102, the descriptor that
-- OBJ2FD makes for an object is accepted by CHK_OBJ_LOCK and leads back to that object if it is
-- allocated, and is rejected if it is free.
pub chk_obj-obj2fd :
    (pool : Pool) (xs : List ℕ) (sig i : ℕ)
    → IsPool pool xs
    → pool.num_bufs ≤ 64
    → sig < 102
    → i < pool.num_bufs
    → (fd : ℕ) × (obj2fd pool sig (pool.mem + i * pool.buf_size) ≡ returns fd)
      × (((chk_obj pool sig fd ≡ returns (some (pool.mem + i * pool.buf_size)))
            × Absent (pool.mem + i * pool.buf_size) xs)
          ⊎ ((chk_obj pool sig fd ≡ returns none) × Member (pool.mem + i * pool.buf_size) xs))
unfolding unless_free
chk_obj-obj2fd pool xs sig i v small hs hi =
    let same = chk_obj-same pool xs sig i v (omega arith) hi in
    (
      sig * 64 + i + 3,
      obj2fd-block pool xs sig i v small hs hi,
      (elim (pool_check_free_list-total pool xs (pool.mem + i * pool.buf_size) v) [
        | inl (e, free) ↦ inr (same ∙ rw e refl, free)
        | inr (e, held) ↦ inl (same ∙ rw e refl, held)
      ]),
    )

-- In a good object pool of at most 64 objects, a descriptor made before between 1 and 101 formats
-- of the partition is rejected by CHK_OBJ_LOCK after them.
pub chk_obj-after_formats :
    (pool : Pool) (xs : List ℕ) (sig i n : ℕ)
    → IsPool pool xs
    → pool.num_bufs ≤ 64
    → sig < 102
    → i < pool.num_bufs
    → 0 < n
    → n < 102
    → (fd : ℕ) × (obj2fd pool sig (pool.mem + i * pool.buf_size) ≡ returns fd)
      × (chk_obj pool (after_formats n sig) fd ≡ returns none)
chk_obj-after_formats pool xs sig i n v small hs hi low high = (
  sig * 64 + i + 3,
  obj2fd-block pool xs sig i v small hs hi,
  chk_obj-other pool sig (after_formats n sig) i (omega arith) (after_formats-ne n sig hs low high),
)
