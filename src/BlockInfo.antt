-- ===== src/BlockInfo.antt =====
-- src/uffs_blockinfo.c: the cache of block information, one entry for each cached block with the tags
-- of its pages. The linked list of entries from `head` to `tail` is a list, an entry is named by its
-- place in memory, `id`, and moving an entry to the tail is moving it to the end of the list. The
-- number of `spares` of an entry is pages_per_block. A page's tag comes from uffs_FlashReadPageTag,
-- which ends in the flash driver: `read_tag` gives its result and what it leaves in the tag that it is
-- given.
pub mod Expired
pub mod Cache
mod Examples
use esp_uffs.Prelude.{
  ℕ, zero, suc, ◌+◌, ◌-◌, ◌<◌, List, [], ◌∷◌, ◌++◌, Bool, true, false, not, ◌&&◌, Option, none,
  some, ltb, ◌==◌, if◌then◌else◌, length,
}
use esp_uffs.Prelude.Words.{u16}
use esp_uffs.BadBlock.{
  FlashResult, no_err, ecc_ok, not_sealed, io_err, ecc_fail, bad_blk, crc_err, unknown_err,
  PendingList, bad_block_add_by_flash_result, invalid_block,
}

-- uffs_Tags, with the fields of its stored part first.
pub record Tags : Type 0 where
  pub dirty : ℕ
  pub valid : ℕ
  pub kind : ℕ
  pub block_ts : ℕ
  pub data_len : ℕ
  pub serial : ℕ
  pub parent : ℕ
  pub page_id : ℕ
  pub reserved : ℕ
  pub tag_ecc : ℕ
  pub data_sum : ℕ
  pub seal_byte : ℕ

pub record PageSpare : Type 0 where
  pub tag : Tags
  pub expired : Bool

pub record BlockInfo : Type 0 where
  pub id : ℕ
  pub block : ℕ
  pub spares : List PageSpare
  pub expired_count : ℕ
  pub ref_count : ℕ

-- UFFS_FLASH_HAVE_ERR: the negative results.
unfoldable pub flash_have_err : FlashResult → Bool
flash_have_err no_err = false
flash_have_err ecc_ok = false
flash_have_err not_sealed = false
flash_have_err io_err = true
flash_have_err ecc_fail = true
flash_have_err bad_blk = true
flash_have_err crc_err = true
flash_have_err unknown_err = true

-- All fields of the tag are set to ones by the memset.
abbrev pub erased_tag : Tags
erased_tag = record {
  dirty = 1;
  valid = 1;
  kind = 3;
  block_ts = 3;
  data_len = 0xfff;
  serial = 0x3fff;
  parent = 0x3ff;
  page_id = 0x3f;
  reserved = 0xf;
  tag_ecc = 0xfff;
  data_sum = 0xffff;
  seal_byte = 0xff;
}

abbrev pub ReadTag : Type 0
ReadTag = ℕ → ℕ → Tags → FlashResult × Tags

-- One page of `uffs_BlockInfoLoad` with UFFS_ALL_PAGES, and whether it failed.
unfoldable pub load_spare :
    ReadTag → ℕ → ℕ → PageSpare → PendingList → Bool × PageSpare × PendingList
load_spare read_tag block page spare pending =
    let (ret, tag) = read_tag block page spare.tag in
    let added = (bad_block_add_by_flash_result pending block ret).1 in
    if flash_have_err ret
    then (true, record { tag = record tag { valid = 1 }; expired = false }, added)
    else (false, record { tag = tag; expired = false }, added)

-- The loop over all pages: the failures, the spares, the expired count and the pending blocks.
unfoldable pub load_all :
    ReadTag → ℕ → ℕ → List PageSpare → ℕ → PendingList → ℕ × List PageSpare × ℕ × PendingList
unfolding load_spare
load_all read_tag block page [] count pending = (0, [], count, pending)
load_all read_tag block page (spare ∷ rest) count pending =
    if spare.expired
    then (let (bad, loaded, added) = load_spare read_tag block page spare pending in
        let (failures, others, left, after) =
          load_all read_tag block (page + 1) rest (count - 1) added in
        ((if bad then suc failures else failures), loaded ∷ others, left, after))
    else (let (failures, others, left, after) =
          load_all read_tag block (page + 1) rest count pending in
        (failures, spare ∷ others, left, after))

-- A load of all pages. The result is `true` for U_SUCC.
unfoldable pub block_info_load_all :
    ReadTag → BlockInfo → PendingList → Bool × BlockInfo × PendingList
unfolding load_all
block_info_load_all read_tag work pending =
    let (failures, spares, left, after) =
      load_all read_tag work.block 0 work.spares work.expired_count pending in
    (failures == 0, record work { spares = spares; expired_count = left }, after)

-- One page, which must be in range; a page that is not expired is not read again.
unfoldable pub load_page :
    ReadTag → ℕ → ℕ → List PageSpare → ℕ → ℕ → PendingList → Bool × List PageSpare × ℕ × PendingList
load_page read_tag block page [] at count pending = (false, [], count, pending)
load_page read_tag block page (spare ∷ rest) zero count pending =
    if spare.expired
    then (let (ret, tag) = read_tag block page spare.tag in
        let added = (bad_block_add_by_flash_result pending block ret).1 in
        if flash_have_err ret
        then (false, record spare { tag = tag } ∷ rest, count, added)
        else (true, record { tag = tag; expired = false } ∷ rest, count - 1, added))
    else (true, spare ∷ rest, count, pending)
load_page read_tag block page (spare ∷ rest) (suc at) count pending =
    let (ok, others, left, after) = load_page read_tag block page rest at count pending in
    (ok, spare ∷ others, left, after)

unfoldable pub block_info_load_page :
    ReadTag → BlockInfo → ℕ → PendingList → Bool × BlockInfo × PendingList
unfolding load_page
block_info_load_page read_tag work page pending =
    let (ok, spares, left, after) =
      load_page read_tag work.block page work.spares page work.expired_count pending in
    (ok, record work { spares = spares; expired_count = left }, after)

abbrev pub all_pages : ℕ
all_pages = 0xffff

unfoldable pub block_info_load :
    ReadTag → BlockInfo → ℕ → PendingList → Bool × BlockInfo × PendingList
block_info_load read_tag work page pending =
    if page == all_pages
    then block_info_load_all read_tag work pending
    else block_info_load_page read_tag work page pending

unfoldable pub expire_all : List PageSpare → ℕ → List PageSpare × ℕ
expire_all [] count = ([], count)
expire_all (spare ∷ rest) count =
    let (others, left) = expire_all rest (if spare.expired then count else count + 1) in
    (record spare { expired = true } ∷ others, left)

-- UFFS_ALL_PAGES.
unfoldable pub block_info_expire_all_pages : BlockInfo → BlockInfo
unfolding expire_all
block_info_expire_all_pages p =
    let (spares, count) = expire_all p.spares p.expired_count in
    record p { spares = spares; expired_count = count }

unfoldable pub expire_page : List PageSpare → ℕ → ℕ → List PageSpare × ℕ
expire_page [] page count = ([], count)
expire_page (spare ∷ rest) zero count =
    (record spare { expired = true } ∷ rest, (if spare.expired then count else count + 1))
expire_page (spare ∷ rest) (suc page) count =
    let (others, left) = expire_page rest page count in (spare ∷ others, left)

-- One page; a page out of range changes nothing.
unfoldable pub block_info_expire_page : BlockInfo → ℕ → BlockInfo
unfolding expire_page
block_info_expire_page p page =
    let (spares, count) = expire_page p.spares page p.expired_count in
    record p { spares = spares; expired_count = count }

unfoldable pub block_info_expire : BlockInfo → ℕ → BlockInfo
block_info_expire p page =
    if page == all_pages then block_info_expire_all_pages p else block_info_expire_page p page

unfoldable pub init_erased : List PageSpare → List PageSpare
init_erased [] = []
init_erased (spare ∷ rest) = record { tag = erased_tag; expired = false } ∷ init_erased rest

unfoldable pub block_info_init_erased : BlockInfo → BlockInfo
unfolding init_erased
block_info_init_erased p = record p { spares = init_erased p.spares; expired_count = 0 }

unfoldable pub block_info_put : BlockInfo → BlockInfo
block_info_put p = if p.ref_count == 0 then p else record p { ref_count = p.ref_count - 1 }

-- The first entry that passes a test, and the list without it.
unfoldable pub take_first :
    (BlockInfo → Bool) → List BlockInfo → Option (BlockInfo × List BlockInfo)
take_first test [] = none
take_first test (work ∷ rest) =
    let behind = take_first test rest in
    if test work
    then some (work, rest)
    else (elim behind [ none ↦ none | some r ↦ some (r.0, work ∷ r.1) ])

-- A reused entry, with every page to be read. Its block has 16 bits.
unfoldable pub renew : ℕ → BlockInfo → BlockInfo
renew block work = record work {
  block = u16 block;
  expired_count = length work.spares;
  spares = (expire_all work.spares 0).0;
  ref_count = 1;
}

-- The entry `bc` goes to the tail of the list `rest`, from which it was taken. Without another entry the
-- tail is NULL, which the code writes through: `none`.
unfoldable pub move_to_tail : List BlockInfo → BlockInfo → Option (List BlockInfo)
move_to_tail [] bc = none
move_to_tail (first ∷ rest) bc = some (first ∷ rest ++ bc ∷ [])

unfoldable pub hand_out : List BlockInfo → BlockInfo → Option (Option BlockInfo × List BlockInfo)
unfolding move_to_tail
hand_out rest bc = elim (move_to_tail rest bc) [ none ↦ none | some cache ↦ some (some bc, cache) ]

unfoldable pub get_free :
    Option (BlockInfo × List BlockInfo)
    → ℕ
    → List BlockInfo
    → Option (Option BlockInfo × List BlockInfo)
unfolding renew hand_out
get_free none block cache = some (none, cache)
get_free (some (work, rest)) block cache = hand_out rest (renew block work)

unfoldable pub get_cached :
    Option (BlockInfo × List BlockInfo)
    → ℕ
    → List BlockInfo
    → Option (Option BlockInfo × List BlockInfo)
unfolding get_free take_first
get_cached (some (work, rest)) block cache =
    hand_out rest (record work { ref_count = work.ref_count + 1 })
get_cached none block cache = get_free (take_first (λ work. work.ref_count == 0) cache) block cache

-- The entry, or `none` for NULL, with the cache after the call; `none` where the code writes through
-- NULL.
unfoldable pub block_info_get : List BlockInfo → ℕ → Option (Option BlockInfo × List BlockInfo)
unfolding get_cached
block_info_get cache block = get_cached (take_first (λ work. work.block == block) cache) block cache

unfoldable pub block_info_is_all_free : List BlockInfo → Bool
block_info_is_all_free [] = true
block_info_is_all_free (work ∷ rest) =
    if work.ref_count == 0 then block_info_is_all_free rest else false

unfoldable pub block_info_expire_all : List BlockInfo → List BlockInfo
block_info_expire_all [] = []
block_info_expire_all (bc ∷ rest) = block_info_expire_all_pages bc ∷ block_info_expire_all rest
