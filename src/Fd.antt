-- ===== src/Fd.antt =====
-- File descriptors of src/uffs_fd.c: the index of an object in the object pool together with a
-- signature that changes when the partition is formatted. A descriptor below FD_OFFSET, a negative
-- one too, is a number below 3 here.
pub mod Signature
pub mod Handle
mod Examples
use esp_uffs.Prelude.{
  ℕ, zero, suc, ◌+◌, ◌-◌, bit_and, bit_or, Bool, true, false, not, Option, none, some, ltb, ◌==◌,
  if◌then◌else◌,
}
use esp_uffs.Prelude.Words.{◌<<<◌, ◌>>>◌}
use esp_uffs.Pool.{
  Pool, Outcome, returns, panics, unfinished, pool_get_index, pool_get_buf_by_index, pool_verify,
  pool_check_free_list,
}

abbrev pub fd_offset : ℕ
fd_offset = 3

abbrev pub fd_signature_shift : ℕ
fd_signature_shift = 6

abbrev pub max_fd_signature_round : ℕ
max_fd_signature_round = 100

unfoldable pub fd_signature_increase : ℕ → ℕ
fd_signature_increase sig = if ltb max_fd_signature_round sig then 0 else sig + 1

unfoldable pub with_index : Outcome ℕ → ℕ → Outcome ℕ
with_index (returns index) sig = returns (bit_or index (sig <<< fd_signature_shift) + fd_offset)
with_index panics sig = panics
with_index unfinished sig = unfinished

unfoldable pub obj2fd : Pool → ℕ → ℕ → Outcome ℕ
unfolding with_index
obj2fd pool sig obj = with_index (pool_get_index pool obj) sig

-- The object, unless it is free.
unfoldable pub unless_free : Outcome Bool → ℕ → Outcome (Option ℕ)
unless_free (returns free) obj = returns (if free then none else some obj)
unless_free panics obj = panics
unless_free unfinished obj = unfinished

-- `none` stands for the error UEBADF.
unfoldable pub chk_obj : Pool → ℕ → ℕ → Outcome (Option ℕ)
unfolding unless_free
chk_obj pool sig fd =
    let n = fd - fd_offset in
    let obj = pool_get_buf_by_index pool (bit_and n 0x3f) in
    if ltb fd fd_offset
    then returns none
    else if not (n >>> fd_signature_shift == sig)
    then returns none
    else if obj == 0
    then returns none
    else if pool_verify pool obj
    then unless_free (pool_check_free_list pool obj) obj
    else returns none
