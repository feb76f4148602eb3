-- ===== src/FlashPage.antt =====
-- src/uffs_flash.c: writing a page, reading it back, and reading its tag. The driver is a parameter.
-- Only the bytes that a function uses are given to it: a page is the list of its bytes, the mini
-- header first, and a code read from the spare area is cut to the bytes that uffs_EccCorrect reads.
-- The configuration is that of include/uffs_config.h: no CRC of the page data, bad block policy not
-- strict, and a written page is read back and checked (CONFIG_UFFS_PAGE_WRITE_VERIFY).
pub mod ReadBack
pub mod TagBack
pub mod Written
mod Examples
use esp_uffs.Prelude.{
  ℕ, zero, suc, ◌+◌, ◌-◌, ◌*◌, ◌/◌, ◌%◌, List, [], ◌∷◌, ◌++◌, Bool, true, false, not, ◌&&◌, ◌||◌,
  Option, none, some, ltb, leb, ◌==◌, if◌then◌else◌, drop,
}
use mathlib.Core.Option
use esp_uffs.Pool.{Pool, pool_get, pool_put}
use esp_uffs.Ecc.{Fix, fixed, failed, ecc_make, ecc_correct}
use esp_uffs.BadBlock.{
  FlashResult, no_err, ecc_ok, not_sealed, io_err, ecc_fail, bad_blk, crc_err, unknown_err,
}
use esp_uffs.BlockInfo.{Tags, flash_have_err}
use esp_uffs.TagStore.{slice, of_list, tag_bytes, tag_of_bytes, tag_make_ecc, tag_ecc_correct}
use esp_uffs.Flash.{
  Bytes, EccOpt, ecc_none, ecc_soft, ecc_hw, ecc_hw_auto, is_ecc_none, StorageAttr,
  nominal_ecc_size, flash_make_spare, flash_unload_spare,
}

-- What a driver's function gives and leaves in the buffers that it was asked to fill.
pub record PageRead : Type 0 where
  pub result : FlashResult
  pub page : List ℕ
  pub ecc : List ℕ
  pub spare : Bytes

pub record LayoutRead : Type 0 where
  pub result : FlashResult
  pub page : List ℕ
  pub ecc : List ℕ
  pub ts : Bytes
  pub ecc_store : List ℕ

-- What is asked for: each buffer that is not NULL.
pub record Wanted : Type 0 where
  pub page : Bool
  pub ecc : Bool
  pub spare : Bool
  pub ecc_store : Bool

-- The driver, on the state of a chip. uffs_FlashInterfaceInit makes sure that it can write and read
-- in one of the ways; where it has both, the one with the layout is used.
pub data ReadOp (Chip : Type 0) : Type 0 where
  read_page : (Chip → ℕ → ℕ → Wanted → PageRead) → ReadOp Chip
  read_page_with_layout : (Chip → ℕ → ℕ → Wanted → LayoutRead) → ReadOp Chip

pub data WriteOp (Chip : Type 0) : Type 0 where
  write_page : (Chip → ℕ → ℕ → List ℕ → Bytes → FlashResult × Chip) → WriteOp Chip
  write_page_with_layout :
      (Chip → ℕ → ℕ → List ℕ → Option (List ℕ) → Tags → FlashResult × Chip) → WriteOp Chip

-- 'not sealed' is hidden.
unfoldable pub hide_not_sealed : FlashResult → FlashResult
hide_not_sealed not_sealed = no_err
hide_not_sealed no_err = no_err
hide_not_sealed ecc_ok = ecc_ok
hide_not_sealed io_err = io_err
hide_not_sealed ecc_fail = ecc_fail
hide_not_sealed bad_blk = bad_blk
hide_not_sealed crc_err = crc_err
hide_not_sealed unknown_err = unknown_err

unfoldable pub is_not_sealed : FlashResult → Bool
is_not_sealed not_sealed = true
is_not_sealed no_err = false
is_not_sealed ecc_ok = false
is_not_sealed io_err = false
is_not_sealed ecc_fail = false
is_not_sealed bad_blk = false
is_not_sealed crc_err = false
is_not_sealed unknown_err = false

-- UFFS_FLASH_IS_BAD_BLOCK
unfoldable pub flash_is_bad_block : FlashResult → Bool
flash_is_bad_block ecc_fail = true
flash_is_bad_block bad_blk = true
flash_is_bad_block crc_err = true
flash_is_bad_block no_err = false
flash_is_bad_block ecc_ok = false
flash_is_bad_block not_sealed = false
flash_is_bad_block io_err = false
flash_is_bad_block unknown_err = false

-- The result of a correction put over the result of the read.
unfoldable pub after_ecc : FlashResult → Fix → FlashResult
after_ecc ret failed = ecc_fail
after_ecc ret (fixed zero) = ret
after_ecc ret (fixed (suc n)) = ecc_ok

-- UFFS_ECC_SOFT or UFFS_ECC_HW
unfoldable pub checks_ecc : EccOpt → Bool
checks_ecc ecc_none = false
checks_ecc ecc_soft = true
checks_ecc ecc_hw = true
checks_ecc ecc_hw_auto = false

unfoldable pub is_soft : EccOpt → Bool
is_soft ecc_none = false
is_soft ecc_soft = true
is_soft ecc_hw = false
is_soft ecc_hw_auto = false

unfoldable pub stored_ecc : Option Bytes → ℕ → List ℕ
unfolding slice
stored_ecc none n = []
stored_ecc (some ecc) n = slice ecc 0 n

-- The result of the driver, the page as it read it, its code as read (or made by the driver), and
-- the code that the spare area holds.
pub record RawPage : Type 0 where
  pub result : FlashResult
  pub page : List ℕ
  pub ecc : List ℕ
  pub store : List ℕ

unfoldable pub read_raw :
    {Chip : Type 0} → StorageAttr → ReadOp Chip → Chip → ℕ → ℕ → Bool → Bytes → RawPage
unfolding flash_unload_spare stored_ecc
read_raw attr (read_page f) chip block page skip_ecc ecc_store =
    let r =
      f chip block page
        (record { page = true; ecc = not skip_ecc; spare = not skip_ecc; ecc_store = false }) in
    record {
      result = r.result;
      page = r.page;
      ecc = r.ecc;
      store =
          stored_ecc (flash_unload_spare attr r.spare none (some ecc_store)).1
            (nominal_ecc_size attr);
    }
read_raw attr (read_page_with_layout f) chip block page skip_ecc ecc_store =
    let r =
      f chip block page
        (record { page = true; ecc = not skip_ecc; spare = false; ecc_store = not skip_ecc }) in
    record { result = r.result; page = r.page; ecc = r.ecc; store = r.ecc_store }

unfoldable pub corrected : Fix × Option (List ℕ) → FlashResult → List ℕ → FlashResult × List ℕ
unfolding after_ecc
corrected (fix, none) ret page = (after_ecc ret fix, page)
corrected (fix, some done) ret page = (after_ecc ret fix, done)

-- The result of the read with the bytes that are now in the buffer.
unfoldable pub check_page : StorageAttr → Bool → RawPage → FlashResult × List ℕ
unfolding hide_not_sealed checks_ecc is_soft corrected
check_page attr skip_ecc r =
    let ecc = if is_soft attr.ecc_opt && not skip_ecc then ecc_make (some r.page) true else r.ecc in
    if flash_have_err r.result
    then (r.result, r.page)
    else if not skip_ecc && checks_ecc attr.ecc_opt
    then corrected (ecc_correct (some r.page) (some r.store) (some ecc)) (hide_not_sealed r.result)
        r.page
    else (hide_not_sealed r.result, r.page)

-- `old` is what the buffer held, `ecc_store` an array on the stack.
unfoldable pub flash_read_page :
    {Chip : Type 0}
    → StorageAttr
    → ReadOp Chip
    → Chip
    → ℕ
    → ℕ
    → List ℕ
    → Bool
    → Bytes
    → Pool
    → FlashResult × List ℕ × Pool
unfolding read_raw check_page
flash_read_page attr op chip block page old skip_ecc ecc_store pool =
    let (spare, taken) = pool_get pool in
    let (ret, done) =
      check_page attr skip_ecc (read_raw attr op chip block page skip_ecc ecc_store) in
    if spare == 0 then (unknown_err, old, taken) else (ret, done, (pool_put taken spare).1)

unfoldable pub unload_into : Option Bytes → Tags → Tags
unload_into none tag = tag
unload_into (some ts) tag = tag_of_bytes ts tag

-- The tag as the driver gives it, and the result.
unfoldable pub read_raw_tag :
    {Chip : Type 0} → StorageAttr → ReadOp Chip → ℕ → Chip → ℕ → ℕ → Tags → FlashResult × Tags
unfolding hide_not_sealed is_not_sealed flash_unload_spare unload_into
read_raw_tag attr (read_page_with_layout f) spare_data_size chip block page tag =
    let r =
      f chip block page (record { page = false; ecc = false; spare = true; ecc_store = false }) in
    (
      hide_not_sealed r.result,
      record (tag_of_bytes r.ts tag) { seal_byte = if is_not_sealed r.result then 0xff else 0 },
    )
read_raw_tag attr (read_page f) spare_data_size chip block page tag =
    let r =
      f chip block page (record { page = false; ecc = false; spare = true; ecc_store = false }) in
    let sealed = record tag { seal_byte = r.spare (spare_data_size - 1) } in
    let stored = (flash_unload_spare attr r.spare (some (of_list (tag_bytes tag))) none).0 in
    (r.result, (if flash_have_err r.result then sealed else unload_into stored sealed))

unfoldable pub check_tag : StorageAttr → FlashResult × Tags → FlashResult × Tags
unfolding after_ecc is_ecc_none
check_tag attr (ret, tag) =
    let (fix, done) = tag_ecc_correct tag in
    if flash_have_err ret || (tag.seal_byte == 0xff) || is_ecc_none attr.ecc_opt
    then (ret, tag)
    else (after_ecc ret fix, done)

-- For a tag that is not NULL.
unfoldable pub flash_read_page_tag :
    {Chip : Type 0}
    → StorageAttr
    → ReadOp Chip
    → ℕ
    → Chip
    → ℕ
    → ℕ
    → Tags
    → Pool
    → FlashResult × Tags × Pool
flash_read_page_tag attr op spare_data_size chip block page tag pool =
    let (spare, taken) = pool_get pool in
    let (ret, done) = check_tag attr (read_raw_tag attr op spare_data_size chip block page tag) in
    if spare == 0 then (unknown_err, tag, taken) else (ret, done, (pool_put taken spare).1)

-- The mini header of four bytes: ones but for the status.
abbrev pub mini_header : List ℕ
mini_header = 0 ∷ 0xff ∷ 0xff ∷ 0xff ∷ []

unfoldable pub is_layout_needed : EccOpt → Bool
is_layout_needed ecc_none = false
is_layout_needed ecc_soft = false
is_layout_needed ecc_hw = true
is_layout_needed ecc_hw_auto = true

unfoldable pub page_ecc : EccOpt → List ℕ → List ℕ → Option (List ℕ)
page_ecc ecc_none page ecc_buf = none
page_ecc ecc_soft page ecc_buf = some (ecc_make (some page) true)
page_ecc ecc_hw page ecc_buf = some ecc_buf
page_ecc ecc_hw_auto page ecc_buf = none

unfoldable pub write_raw :
    {Chip : Type 0}
    → StorageAttr
    → WriteOp Chip
    → ℕ
    → Chip
    → ℕ
    → ℕ
    → List ℕ
    → Option (List ℕ)
    → Tags
    → Bytes
    → FlashResult × Chip
unfolding is_layout_needed
write_raw attr (write_page_with_layout f) spare_data_size chip block page bytes ecc tag spare =
    f chip block page bytes ecc tag
write_raw attr (write_page f) spare_data_size chip block page bytes ecc tag spare =
    if attr.layout_by_flash || is_layout_needed attr.ecc_opt
    then (io_err, chip)
    else f chip block page bytes (
        flash_make_spare attr spare_data_size (of_list (tag_bytes tag)) (Option.map of_list ecc)
          spare)

-- The tag that is written.
unfoldable pub setup_tag : StorageAttr → Tags → Tags
setup_tag attr tag =
    let valid = record tag { dirty = 0; valid = 0; seal_byte = 0 } in
    if is_ecc_none attr.ecc_opt then record valid { tag_ecc = 0xfff } else tag_make_ecc valid

unfoldable pub same_bytes : List ℕ → List ℕ → Bool
same_bytes [] [] = true
same_bytes [] (y ∷ ys) = false
same_bytes (x ∷ xs) [] = false
same_bytes (x ∷ xs) (y ∷ ys) = (x == y) && same_bytes xs ys

-- The page is read into a clone buffer, of which `clone` is what it held, or `none` where there is no
-- clone buffer: if the block is bad, and the pool after it.
unfoldable pub verify_page :
    {Chip : Type 0}
    → StorageAttr
    → ReadOp Chip
    → Chip
    → ℕ
    → ℕ
    → List ℕ
    → Option (List ℕ)
    → Bytes
    → Pool
    → Bool × Pool
unfolding flash_read_page same_bytes
verify_page attr op chip block page headed none ecc_store pool = (false, pool)
verify_page attr op chip block page headed (some old) ecc_store pool =
    let (ret, got, after) = flash_read_page attr op chip block page old false ecc_store pool in
    let seen = if flash_have_err ret || same_bytes headed got then ret else bad_blk in
    (flash_is_bad_block seen, after)

-- The tag is read into `chk_tag`, which is on the stack.
unfoldable pub verify_tag :
    {Chip : Type 0}
    → StorageAttr
    → ReadOp Chip
    → ℕ
    → Chip
    → ℕ
    → ℕ
    → Tags
    → Tags
    → Pool
    → FlashResult × Pool
unfolding flash_read_page_tag same_bytes
verify_tag attr op spare_data_size chip block page ready chk_tag pool =
    let (ret, got, after) =
      flash_read_page_tag attr op spare_data_size chip block page chk_tag pool in
    let seen = if same_bytes (tag_bytes ready) (tag_bytes got) then ret else bad_blk in
    ((if flash_have_err ret then ret else if flash_is_bad_block seen then bad_blk else seen), after)

-- What the check of a written page leaves on the stack and in the clone buffer.
pub record Scratch : Type 0 where
  pub ecc_buf : List ℕ
  pub spare : Bytes
  pub clone : Option (List ℕ)
  pub ecc_store : Bytes
  pub chk_tag : Tags

-- The check of a page that was written without an error.
unfoldable pub verify_written :
    {Chip : Type 0}
    → StorageAttr
    → ReadOp Chip
    → ℕ
    → Chip
    → ℕ
    → ℕ
    → List ℕ
    → Tags
    → Scratch
    → Pool
    → FlashResult × Pool
verify_written attr op spare_data_size chip block page headed ready s pool =
    let (bad, after) = verify_page attr op chip block page headed s.clone s.ecc_store pool in
    let (ret, last) = verify_tag attr op spare_data_size chip block page ready s.chk_tag after in
    ((if bad then bad_blk else ret), last)

-- `bytes` is the buffer with its mini header; `s` has the array `ecc_buf` on the stack, what the spare
-- buffer held, and what the check uses. The result with the chip, the buffer, the tag and the pool after
-- the call.
unfoldable pub flash_write_page_combine :
    {Chip : Type 0}
    → StorageAttr
    → WriteOp Chip
    → ReadOp Chip
    → ℕ
    → Chip
    → ℕ
    → ℕ
    → List ℕ
    → Tags
    → Scratch
    → Pool
    → FlashResult × Chip × List ℕ × Tags × Pool
unfolding write_raw page_ecc setup_tag
flash_write_page_combine attr op reads spare_data_size chip block page bytes tag s pool =
    let (place, taken) = pool_get pool in
    let headed = mini_header ++ drop 4 bytes in
    let ready = setup_tag attr tag in
    let ecc = page_ecc attr.ecc_opt headed s.ecc_buf in
    let (ret, written) =
      write_raw attr op spare_data_size chip block page headed ecc ready s.spare in
    let (seen, after) =
      verify_written attr reads spare_data_size written block page headed ready s taken in
    if place == 0
    then (unknown_err, chip, bytes, tag, taken)
    else if flash_have_err ret
    then (
      (if flash_is_bad_block ret then bad_blk else ret),
      written,
      headed,
      ready,
      (pool_put taken place).1,
    )
    else (
      (if flash_is_bad_block ret then bad_blk else seen),
      written,
      headed,
      ready,
      (pool_put after place).1,
    )
