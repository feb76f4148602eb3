-- ===== src/Public.antt =====
-- src/uffs_public.c: the time stamps of blocks, and searches for pages in a block. A search reads the
-- tags it needs into the block's cache entry as it goes, so it gives the entry and the pending blocks
-- that it leaves behind along with its result.
pub mod TimeStamp
pub mod Pages
pub mod Search
pub mod Erased
pub mod Spares
pub mod Free
pub mod Again
pub mod Best
mod Examples
use esp_uffs.Prelude.{
  ℕ, zero, suc, ◌+◌, ◌-◌, ◌%◌, List, [], ◌∷◌, Bool, true, false, not, ◌&&◌, ◌||◌, ltb, leb, ◌==◌,
  if◌then◌else◌, length, get_or,
}
use esp_uffs.BadBlock.{PendingList}
use esp_uffs.BlockInfo.{Tags, erased_tag, PageSpare, BlockInfo, ReadTag, block_info_load}

abbrev pub get_first_block_time_stamp : ℕ
get_first_block_time_stamp = 0

unfoldable pub get_next_block_time_stamp : ℕ → ℕ
get_next_block_time_stamp prev = (prev + 1) % 3

-- The differences 1 and -2 say that the source is newer.
unfoldable pub is_src_newer_than_obj : ℕ → ℕ → Bool
is_src_newer_than_obj src obj = (src == obj + 1) || (obj == src + 2)

-- UFFS_TYPE_FILE.
abbrev pub type_file : ℕ
type_file = 1

abbrev pub invalid_page : ℕ
invalid_page = 0xfffe

unfoldable pub get_tag : BlockInfo → ℕ → Tags
get_tag bc page = (get_or bc.spares page (record { tag = erased_tag; expired = true })).tag

-- TAG_IS_GOOD: sealed and valid.
unfoldable pub tag_is_good : Tags → Bool
tag_is_good tag = not (tag.seal_byte == 0xff) && (tag.valid == 0)

-- A cache entry and the pending blocks.
pub record Loaded : Type 0 where
  pub bc : BlockInfo
  pub pending : PendingList

unfoldable pub load : ReadTag → Loaded → ℕ → Loaded
load read_tag s page =
    let (ok, bc, pending) = block_info_load read_tag s.bc page s.pending in
    record { bc = bc; pending = pending }

-- The loop from page `page` on; `rounds` pages are left.
unfoldable pub page_id_loop : ReadTag → ℕ → ℕ → ℕ → Loaded → ℕ × Loaded
unfolding load
page_id_loop read_tag zero page page_id s = (invalid_page, s)
page_id_loop read_tag (suc rounds) page page_id s =
    let next = load read_tag s page in
    let tag = get_tag next.bc page in
    let later = page_id_loop read_tag rounds (page + 1) page_id next in
    if tag_is_good tag && (tag.page_id == page_id) then (page, next) else later

unfoldable pub find_page_in_block_with_page_id : ReadTag → ℕ → ℕ → Loaded → ℕ × Loaded
unfolding page_id_loop
find_page_in_block_with_page_id read_tag pages_per_block page_id s =
    page_id_loop read_tag (pages_per_block - page_id) page_id page_id s

-- The search from the last page down to the page after the given one; `above` pages are left.
unfoldable pub best_loop : ReadTag → ℕ → ℕ → Tags → Loaded → ℕ × Loaded
best_loop read_tag zero page old s = (page, s)
best_loop read_tag (suc above) page old s =
    let i = page + suc above in
    let next = load read_tag s i in
    let tag = get_tag next.bc i in
    let later = best_loop read_tag above page old next in
    if tag_is_good tag
      && (tag.page_id == old.page_id)
      && (tag.parent == old.parent)
      && (tag.serial == old.serial)
    then (i, next)
    else later

-- `pages_per_block` is at least 1.
unfoldable pub find_best_page_in_block : ReadTag → ℕ → ℕ → Loaded → ℕ × Loaded
unfolding best_loop
find_best_page_in_block read_tag pages_per_block page s =
    let last_page = pages_per_block - 1 in
    let first = load read_tag s page in
    let old = get_tag first.bc page in
    let second = load read_tag first last_page in
    let tag = get_tag second.bc last_page in
    if page == invalid_page
    then (page, s)
    else if not (tag_is_good old)
    then (invalid_page, first)
    else if page == last_page
    then (page, first)
    else if tag_is_good tag && (tag.page_id == last_page)
    then (page, second)
    else best_loop read_tag (last_page - page) page old second

unfoldable pub is_block_pages_full_used : ReadTag → ℕ → Loaded → Bool × Loaded
is_block_pages_full_used read_tag pages_per_block s =
    let next = load read_tag s (pages_per_block - 1) in
    (tag_is_good (get_tag next.bc (pages_per_block - 1)), next)
