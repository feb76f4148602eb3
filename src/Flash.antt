-- ===== src/Flash.antt =====
-- src/uffs_flash.c: how the tag and the code of a page are laid out in its spare area, and the
-- writing and reading of pages. A buffer of bytes is a function of the offset.
pub mod Place
pub mod Spare
pub mod Layout
mod Examples
use esp_uffs.Prelude.{
  ℕ, zero, suc, ◌+◌, ◌-◌, ◌*◌, ◌/◌, ◌<◌, List, [], ◌∷◌, ◌++◌, Bool, true, false, not, ◌&&◌, ◌||◌,
  Option, none, some, ltb, leb, ◌==◌, if◌then◌else◌, write,
}
use esp_uffs.Prelude.Words.{u8}

abbrev pub Bytes : Type 0
Bytes = ℕ → ℕ

unfoldable pub memcpy : Bytes → ℕ → Bytes → ℕ → ℕ → Bytes
memcpy dst at src from n = λ x. if leb at x && ltb x (at + n) then src (from + (x - at)) else dst x

unfoldable pub memset : Bytes → ℕ → ℕ → ℕ → Bytes
memset dst at byte n = λ x. if leb at x && ltb x (at + n) then byte else dst x

abbrev pub tag_store_size : ℕ
tag_store_size = 8

-- UFFS_ECC_NONE, UFFS_ECC_SOFT, UFFS_ECC_HW and UFFS_ECC_HW_AUTO.
pub data EccOpt : Type 0 where
  ecc_none : EccOpt
  ecc_soft : EccOpt
  ecc_hw : EccOpt
  ecc_hw_auto : EccOpt

-- The fields of uffs_StorageAttrSt that are used here; `layout_by_flash` is the layout option
-- UFFS_LAYOUT_FLASH, and a layout that is NULL is `none`.
pub record StorageAttr : Type 0 where
  pub page_data_size : ℕ
  pub pages_per_block : ℕ
  pub spare_size : ℕ
  pub block_status_offs : ℕ
  pub layout_by_flash : Bool
  pub ecc_opt : EccOpt
  pub ecc_size : ℕ
  pub ecc_layout : Option (List ℕ)
  pub data_layout : Option (List ℕ)

unfoldable pub is_ecc_none : EccOpt → Bool
is_ecc_none ecc_none = true
is_ecc_none ecc_soft = false
is_ecc_none ecc_hw = false
is_ecc_none ecc_hw_auto = false

-- NOMINAL_ECC_SIZE
unfoldable pub nominal_ecc_size : StorageAttr → ℕ
nominal_ecc_size attr = 3 * ((attr.page_data_size - 1) / 256 + 1)

unfoldable pub init_data_layout : ℕ → List ℕ
init_data_layout s =
    if ltb s tag_store_size
    then (if ltb 0 s then 0 ∷ s ∷ [] else [])
      ++ u8 (s + 1) ∷ u8 (tag_store_size - s) ∷ 0xff ∷ 0 ∷ []
    else 0 ∷ tag_store_size ∷ 0xff ∷ 0 ∷ []

unfoldable pub init_ecc_layout : ℕ → ℕ → List ℕ
init_ecc_layout s ecc_size =
    if ltb s tag_store_size
    then u8 (tag_store_size + 1) ∷ u8 ecc_size ∷ 0xff ∷ 0 ∷ []
    else if ltb s (tag_store_size + ecc_size)
    then (if ltb tag_store_size s then tag_store_size ∷ u8 (s - tag_store_size) ∷ [] else [])
      ++ u8 (s + 1) ∷ u8 (tag_store_size + ecc_size - s) ∷ 0xff ∷ 0 ∷ []
    else tag_store_size ∷ u8 ecc_size ∷ 0xff ∷ 0 ∷ []

unfoldable pub init_spare_layout : StorageAttr → StorageAttr
unfolding init_data_layout init_ecc_layout is_ecc_none
init_spare_layout attr = record attr {
  data_layout = some (init_data_layout attr.block_status_offs);
  ecc_layout = some (
      if is_ecc_none attr.ecc_opt
      then 0xff ∷ 0 ∷ []
      else init_ecc_layout attr.block_status_offs attr.ecc_size);
}

-- `n = (p[1] > size ? size : p[1])`
unfoldable pub at_most : ℕ → ℕ → ℕ
at_most n size = if ltb size n then size else n

-- The end of the last segment that is used.
unfoldable pub last_loop : List ℕ → ℕ → ℕ → ℕ
unfolding at_most
last_loop [] size last = last
last_loop (ofs ∷ []) size last = last
last_loop (ofs ∷ n ∷ rest) size last =
    if not (ofs == 0xff) && ltb 0 size
    then last_loop rest (size - at_most n size) (ofs + at_most n size)
    else last

unfoldable pub layout_last : Option (List ℕ) → ℕ → ℕ
unfolding last_loop
layout_last none size = 0
layout_last (some layout) size = last_loop layout size 0

unfoldable pub calculate_spare_data_size : StorageAttr → ℕ
unfolding layout_last is_ecc_none
calculate_spare_data_size attr =
    let ecc_size = if is_ecc_none attr.ecc_opt then 0 else attr.ecc_size in
    let ecc_last = layout_last attr.ecc_layout ecc_size in
    let tag_last = layout_last attr.data_layout tag_store_size in
    let n = if ltb tag_last ecc_last then ecc_last else tag_last in
    let top = if ltb (attr.block_status_offs + 1) n then n else attr.block_status_offs + 1 in
    top + 1

-- From the spare area to a buffer, from offset `at` of the buffer on.
unfoldable pub unload_loop : List ℕ → Bytes → ℕ → Bytes → ℕ → Bytes
unfolding memcpy at_most
unload_loop [] spare size buf at = buf
unload_loop (ofs ∷ []) spare size buf at = buf
unload_loop (ofs ∷ n ∷ rest) spare size buf at =
    if not (ofs == 0xff) && ltb 0 size
    then unload_loop rest spare (size - at_most n size) (memcpy buf at spare ofs (at_most n size))
        (at + at_most n size)
    else buf

-- From a buffer, from its offset `at` on, to the spare area.
unfoldable pub load_loop : List ℕ → Bytes → ℕ → ℕ → Bytes → Bytes
unfolding memcpy at_most
load_loop [] src at size spare = spare
load_loop (ofs ∷ []) src at size spare = spare
load_loop (ofs ∷ n ∷ rest) src at size spare =
    if not (ofs == 0xff) && ltb 0 size
    then load_loop rest src (at + at_most n size) (size - at_most n size)
        (memcpy spare ofs src at (at_most n size))
    else spare

unfoldable pub unload_ecc : Option (List ℕ) → Bytes → Option Bytes → ℕ → Option Bytes
unfolding unload_loop
unload_ecc none spare ecc size = ecc
unload_ecc (some layout) spare none size = none
unload_ecc (some layout) spare (some ecc) size = some (unload_loop layout spare size ecc 0)

-- The data layout is not NULL where a tag is wanted.
unfoldable pub unload_tag : Option (List ℕ) → Bytes → Option Bytes → Option Bytes
unfolding unload_loop
unload_tag none spare ts = ts
unload_tag (some layout) spare none = none
unload_tag (some layout) spare (some ts) = some (unload_loop layout spare tag_store_size ts 0)

-- The tag and the code, where they are wanted.
unfoldable pub flash_unload_spare :
    StorageAttr → Bytes → Option Bytes → Option Bytes → Option Bytes × Option Bytes
unfolding unload_ecc unload_tag
flash_unload_spare attr spare ts ecc =
    (unload_tag attr.data_layout spare ts, unload_ecc attr.ecc_layout spare ecc attr.ecc_size)

unfoldable pub load_ecc : Option (List ℕ) → Option Bytes → ℕ → Bytes → Bytes
unfolding load_loop
load_ecc none ecc size spare = spare
load_ecc (some layout) none size spare = spare
load_ecc (some layout) (some ecc) size spare = load_loop layout ecc 0 size spare

unfoldable pub load_tag : Option (List ℕ) → Bytes → Bytes → Bytes
unfolding load_loop
load_tag none ts spare = spare
load_tag (some layout) ts spare = load_loop layout ts 0 tag_store_size spare

-- The spare area is filled with ones, the last byte of the spare data is the seal, and the code and
-- the tag are put in their places.
unfoldable pub flash_make_spare : StorageAttr → ℕ → Bytes → Option Bytes → Bytes → Bytes
unfolding memset write load_ecc load_tag
flash_make_spare attr spare_data_size ts ecc spare =
    let blank = write (memset spare 0 0xff spare_data_size) (spare_data_size - 1) 0 in
    load_tag attr.data_layout ts (load_ecc attr.ecc_layout ecc attr.ecc_size blank)
