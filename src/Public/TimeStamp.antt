-- ===== src/Public/TimeStamp.antt =====
-- The cyclic time stamps of blocks in src/uffs_public.c.
use esp_uffs.Prelude.{ℕ, ◌<◌, ◌≡◌, ◌↔◌, true, arith}
use esp_uffs.Public.{get_next_block_time_stamp, is_src_newer_than_obj}

-- Among the time stamps 0, 1 and 2, uffs_IsSrcNewerThanObj holds exactly when the source has the
-- stamp that uffs_GetNextBlockTimeStamp gives after the object's.
pub is_src_newer_than_obj-get_next_block_time_stamp :
    (src obj : ℕ)
    → src < 3
    → obj < 3
    → (is_src_newer_than_obj src obj ≡ true) ↔ (src ≡ get_next_block_time_stamp obj)
unfolding is_src_newer_than_obj get_next_block_time_stamp
is_src_newer_than_obj-get_next_block_time_stamp src obj hs ho = ground arith
