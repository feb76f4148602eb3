-- ===== src/BadBlock.antt =====
-- The list of pending blocks of src/uffs_badblock.c: blocks that a flash operation found in need of
-- a refresh, a recovery or a bad mark. `entries` are the first `count` elements of `pending.list`.
pub mod Lookup
mod Examples
use esp_uffs.Prelude.{
  ℕ, zero, suc, ◌<◌, List, [], ◌∷◌, ◌++◌, Bool, true, false, Option, none, some, ltb, leb, ◌==◌,
  if◌then◌else◌, length,
}
use esp_uffs.Prelude.Words.{u16}

-- UFFS_FLASH_NO_ERR and so on.
pub data FlashResult : Type 0 where
  no_err : FlashResult
  ecc_ok : FlashResult
  not_sealed : FlashResult
  io_err : FlashResult
  ecc_fail : FlashResult
  bad_blk : FlashResult
  crc_err : FlashResult
  unknown_err : FlashResult

abbrev pub pending_refresh : ℕ
pending_refresh = 0

abbrev pub pending_recover : ℕ
pending_recover = 1

abbrev pub pending_markbad : ℕ
pending_markbad = 3

abbrev pub max_pending_blocks : ℕ
max_pending_blocks = 4

abbrev pub invalid_block : ℕ
invalid_block = 0xfffe

pub record PendingBlock : Type 0 where
  pub block : ℕ
  pub mark : ℕ

pub record PendingList : Type 0 where
  pub entries : List PendingBlock
  pub block_in_recovery : ℕ

unfoldable pub bad_block_init : PendingList
bad_block_init = record { entries = []; block_in_recovery = invalid_block }

-- The first entry with the block gets the mark, if that is higher; `none` when there is no entry.
unfoldable pub raise_mark : List PendingBlock → ℕ → ℕ → Option (List PendingBlock)
raise_mark [] block mark = none
raise_mark (s ∷ rest) block mark =
    let behind = raise_mark rest block mark in
    if s.block == block
    then some ((if ltb s.mark mark then record s { mark = mark } else s) ∷ rest)
    else (elim behind [ none ↦ none | some raised ↦ some (s ∷ raised) ])

unfoldable pub or_append : Option (List PendingBlock) → PendingList → ℕ → ℕ → PendingList
or_append (some raised) pending block mark = record pending { entries = raised }
or_append none pending block mark =
    if leb max_pending_blocks (length pending.entries) then pending else record pending {
      entries = pending.entries ++ record { block = u16 block; mark = mark } ∷ [];
    }

unfoldable pub bad_block_add : PendingList → ℕ → ℕ → PendingList
unfolding raise_mark or_append
bad_block_add pending block mark =
    if pending.block_in_recovery == block
    then pending
    else or_append (raise_mark pending.entries block mark) pending block mark

-- The mark that a flash result asks for; `none` stands for UFFS_PENDING_BLK_NONE.
unfoldable pub pending_type : FlashResult → Option ℕ
pending_type ecc_ok = some pending_refresh
pending_type ecc_fail = some pending_markbad
pending_type crc_err = some pending_markbad
pending_type bad_blk = some pending_recover
pending_type no_err = none
pending_type not_sealed = none
pending_type io_err = none
pending_type unknown_err = none

unfoldable pub add_typed : Option ℕ → PendingList → ℕ → PendingList
add_typed none pending block = pending
add_typed (some mark) pending block = bad_block_add pending block mark

unfoldable pub bad_block_add_by_flash_result :
    PendingList → ℕ → FlashResult → Option ℕ × PendingList
unfolding add_typed
bad_block_add_by_flash_result pending block flash_op_ret =
    (pending_type flash_op_ret, add_typed (pending_type flash_op_ret) pending block)

unfoldable pub find_entry : List PendingBlock → ℕ → Option PendingBlock
find_entry [] block = none
find_entry (s ∷ rest) block =
    let behind = find_entry rest block in if s.block == block then some s else behind

unfoldable pub bad_block_pending_node_get : PendingList → ℕ → Option PendingBlock
unfolding find_entry
bad_block_pending_node_get pending block = find_entry pending.entries block

-- The first entry with the block goes, and those behind it move down; `none` if there is none.
unfoldable pub remove_entry : List PendingBlock → ℕ → Option (List PendingBlock)
remove_entry [] block = none
remove_entry (s ∷ rest) block =
    let behind = remove_entry rest block in
    if s.block == block
    then some rest
    else (elim behind [ none ↦ none | some removed ↦ some (s ∷ removed) ])

unfoldable pub removed_or_fail : Option (List PendingBlock) → PendingList → Bool × PendingList
removed_or_fail none pending = (false, pending)
removed_or_fail (some rest) pending = (true, record pending { entries = rest })

unfoldable pub bad_block_pending_remove : PendingList → ℕ → Bool × PendingList
unfolding remove_entry removed_or_fail
bad_block_pending_remove pending block =
    removed_or_fail (remove_entry pending.entries block) pending
