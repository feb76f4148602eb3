-- ===== src/Flash/Spare.antt =====
-- The spare area of a page in src/uffs_flash.c, for any layouts that keep the bytes apart.
use esp_uffs.Prelude.{
  ℕ, ◌-◌, ◌<◌, ◌==◌, ◌≡◌, ◌≢◌, refl, sym, ◌∙◌, List, Option, some, ltb, if◌then◌else◌, arith, write,
}
use esp_uffs.Flash.{
  Bytes, tag_store_size, StorageAttr, flash_make_spare, flash_unload_spare, load_tag, load_ecc,
  load_loop, unload_loop, memset,
}
use esp_uffs.Flash.Place.{place, Holds, Apart, load_first, unload_first, load_elsewhere}

-- A code and a tag have room in the layouts, and no two of their bytes share a place.
pub record Fits (ecc_layout data_layout : List ℕ) (ecc_size : ℕ) : Type 0 where
  pub ecc_holds : Holds ecc_layout ecc_size
  pub ecc_apart : Apart ecc_layout ecc_size
  pub tag_holds : Holds data_layout tag_store_size
  pub tag_apart : Apart data_layout tag_store_size
  pub between :
      (i j : ℕ) → i < ecc_size → j < tag_store_size → place ecc_layout i ≢ place data_layout j

pub blank-fill :
    (spare : Bytes) (n x : ℕ)
    → write (memset spare 0 0xff n) (n - 1) 0 x
      ≡ (if x == n - 1 then 0 else if ltb x n then 0xff else spare x)
unfolding memset write
blank-fill spare n x = ground arith

-- Where the code is put.
pub flash_make_spare-ecc :
    (attr : StorageAttr) (ecc_layout data_layout : List ℕ) (n : ℕ) (ts ecc spare : Bytes) (i : ℕ)
    → attr.ecc_layout ≡ some ecc_layout
    → attr.data_layout ≡ some data_layout
    → Fits ecc_layout data_layout attr.ecc_size
    → i < attr.ecc_size
    → flash_make_spare attr n ts (some ecc) spare (place ecc_layout i) ≡ ecc i
unfolding flash_make_spare load_tag load_ecc
flash_make_spare-ecc attr ecc_layout data_layout n ts ecc spare i he hd v hi =
    let blank = write (memset spare 0 0xff n) (n - 1) 0 in
    let coded = load_loop ecc_layout ecc 0 attr.ecc_size blank in
    rw (he, hd)
      (load_elsewhere data_layout ts 0 tag_store_size coded (place ecc_layout i) v.tag_holds
          (λ j hj e. v.between i j hi hj (sym e))
        ∙ load_first ecc_layout ecc attr.ecc_size blank i v.ecc_holds v.ecc_apart hi)

-- Where the tag is put.
pub flash_make_spare-tag :
    (attr : StorageAttr) (data_layout : List ℕ) (n : ℕ) (ts spare : Bytes) (ecc : Option Bytes)
    (i : ℕ)
    → attr.data_layout ≡ some data_layout
    → Holds data_layout tag_store_size
    → Apart data_layout tag_store_size
    → i < tag_store_size
    → flash_make_spare attr n ts ecc spare (place data_layout i) ≡ ts i
unfolding flash_make_spare load_tag
flash_make_spare-tag attr data_layout n ts spare ecc i hd holds apart hi =
    let blank = write (memset spare 0 0xff n) (n - 1) 0 in
    rw hd (
      load_first data_layout ts tag_store_size (load_ecc attr.ecc_layout ecc attr.ecc_size blank) i
        holds apart hi)

-- What is no place of the layouts.
pub flash_make_spare-elsewhere :
    (attr : StorageAttr) (ecc_layout data_layout : List ℕ) (n : ℕ) (ts ecc spare : Bytes) (x : ℕ)
    → attr.ecc_layout ≡ some ecc_layout
    → attr.data_layout ≡ some data_layout
    → Fits ecc_layout data_layout attr.ecc_size
    → ((i : ℕ) → i < attr.ecc_size → place ecc_layout i ≢ x)
    → ((i : ℕ) → i < tag_store_size → place data_layout i ≢ x)
    → flash_make_spare attr n ts (some ecc) spare x
      ≡ (if x == n - 1 then 0 else if ltb x n then 0xff else spare x)
unfolding flash_make_spare load_tag load_ecc
flash_make_spare-elsewhere attr ecc_layout data_layout n ts ecc spare x he hd v no_ecc no_tag =
    let blank = write (memset spare 0 0xff n) (n - 1) 0 in
    let coded = load_loop ecc_layout ecc 0 attr.ecc_size blank in
    rw (he, hd)
      (load_elsewhere data_layout ts 0 tag_store_size coded x v.tag_holds no_tag
        ∙ load_elsewhere ecc_layout ecc 0 attr.ecc_size blank x v.ecc_holds no_ecc
        ∙ blank-fill spare n x)

-- For layouts that have room for the code and the tag and give every byte a place of its own,
-- uffs_FlashUnloadSpare gets back every byte of the tag and of the code that uffs_FlashMakeSpare
-- put in the spare area.
pub flash_unload_spare-flash_make_spare :
    (attr : StorageAttr) (ecc_layout data_layout : List ℕ) (n : ℕ) (ts ecc spare ts' ecc' : Bytes)
    → attr.ecc_layout ≡ some ecc_layout
    → attr.data_layout ≡ some data_layout
    → Fits ecc_layout data_layout attr.ecc_size
    → let made = flash_make_spare attr n ts (some ecc) spare in
      (t e : Bytes) × (flash_unload_spare attr made (some ts') (some ecc') ≡ (some t, some e))
      × ((i : ℕ) → i < tag_store_size → t i ≡ ts i)
      × ((i : ℕ) → i < attr.ecc_size → e i ≡ ecc i)
unfolding flash_unload_spare
flash_unload_spare-flash_make_spare attr ecc_layout data_layout n ts ecc spare ts' ecc' he hd v =
    let made = flash_make_spare attr n ts (some ecc) spare in
    (
      unload_loop data_layout made tag_store_size ts' 0,
      unload_loop ecc_layout made attr.ecc_size ecc' 0,
      rw (he, hd) refl,
      (λ i hi.
          unload_first data_layout made tag_store_size ts' i v.tag_holds hi
          ∙ flash_make_spare-tag attr data_layout n ts spare (some ecc) i hd v.tag_holds v.tag_apart
              hi),
      (λ i hi.
          unload_first ecc_layout made attr.ecc_size ecc' i v.ecc_holds hi
          ∙ flash_make_spare-ecc attr ecc_layout data_layout n ts ecc spare i he hd v hi),
    )
