-- ===== src/FlashPage/Examples.antt =====
-- Writing and reading at a small device, with a chip of one page.
use esp_uffs.Prelude.{
  ℕ, ◌≡◌, refl, List, [], ◌∷◌, ◌++◌, some, false, arith, drop, if◌then◌else◌, ◌==◌,
}
use esp_uffs.Pool.{Pool}
use esp_uffs.Pool.Chain.{IsPool}
use esp_uffs.BadBlock.{FlashResult, no_err, ecc_ok}
use esp_uffs.BlockInfo.{Tags, erased_tag}
use esp_uffs.Ecc.Whole.{Hit, damage}
use esp_uffs.Flash.{
  Bytes, StorageAttr, ecc_soft, nominal_ecc_size, init_ecc_layout, init_data_layout,
}
use esp_uffs.Flash.Layout.{init-Fits}
use esp_uffs.FlashPage.{
  PageRead, Wanted, read_page, write_page, mini_header, flash_read_page, flash_read_page_tag,
  flash_write_page_combine, Scratch,
}
use esp_uffs.FlashPage.ReadBack.{Keeps}
use esp_uffs.FlashPage.TagBack.{written_tag}
use esp_uffs.FlashPage.Written.{
  flash_read_page-flash_write_page_combine, flash_read_page_tag-flash_write_page_combine,
}

abbrev attr : StorageAttr
attr = record {
  page_data_size = 8;
  pages_per_block = 32;
  spare_size = 32;
  block_status_offs = 5;
  layout_by_flash = false;
  ecc_opt = ecc_soft;
  ecc_size = 3;
  ecc_layout = some (9 ∷ 3 ∷ 0xff ∷ 0 ∷ []);
  data_layout = some (0 ∷ 5 ∷ 6 ∷ 3 ∷ 0xff ∷ 0 ∷ []);
}

abbrev Chip : Type 0
Chip = List ℕ × Bytes

-- Bit 3 of byte 6 is read wrong.
abbrev hits : List Hit
hits = some (6, 3) ∷ []

abbrev put : Chip → ℕ → ℕ → List ℕ → Bytes → FlashResult × Chip
put chip block page bytes spare = (no_err, (bytes, spare))

abbrev fetch : Chip → ℕ → ℕ → Wanted → PageRead
fetch chip block page w = record {
  result = no_err;
  page = damage hits chip.0;
  ecc = [];
  spare = chip.1;
}

abbrev chip : Chip
chip = ([], λ i. 0xff)

keeps : Keeps put fetch chip 4 2 13 hits
keeps = record {
  accepted = λ bytes spare. refl;
  no_error = λ bytes spare w. refl;
  same_page = λ bytes spare w. refl;
  same_spare = λ bytes spare w i h. refl;
}

abbrev blank : Bytes
blank = λ i. 0

-- Two free buffers, at 100 and at 116.
abbrev pool : Pool
pool = record {
  mem = 100;
  buf_size = 16;
  num_bufs = 2;
  free_list = 100;
  sem = false;
  next = λ p. if p == 100 then 116 else 0;
}

pool-IsPool : IsPool pool (100 ∷ 116 ∷ [])
pool-IsPool = record {
  mem_pos = omega arith;
  size_pos = omega arith;
  fits = omega arith;
  chain = (refl, omega arith, (refl, omega arith, refl));
  blocks = ((0, omega arith, omega arith), ((1, omega arith, omega arith), tt));
  distinct = ((omega arith, tt), (tt, tt));
}

abbrev bytes : List ℕ
bytes = 1 ∷ 2 ∷ 3 ∷ 4 ∷ 10 ∷ 20 ∷ 30 ∷ 40 ∷ []

abbrev tag : Tags
tag = record erased_tag { serial = 77; parent = 5; page_id = 9; tag_ecc = 0 }

-- The clone buffer is there, and was empty.
abbrev scratch : Scratch
scratch = record {
  ecc_buf = [];
  spare = blank;
  clone = some [];
  ecc_store = blank;
  chk_tag = erased_tag;
}

flash_read_page-flash_write_page_combine_example :
    let (ret, chip', headed, ready, pool') =
      flash_write_page_combine attr
        (write_page put)
        (read_page fetch)
        13
        chip
        4
        2
        bytes
        tag
        scratch
        pool in
    let (ret', page', pool'') =
      flash_read_page attr (read_page fetch) chip' 4 2 [] false blank pool' in
    (ret ≡ no_err)
    × (headed ≡ mini_header ++ drop 4 bytes)
    × (ret' ≡ ecc_ok)
    × (page' ≡ mini_header ++ drop 4 bytes)
    × IsPool pool'' (100 ∷ 116 ∷ [])
flash_read_page-flash_write_page_combine_example =
    flash_read_page-flash_write_page_combine attr (9 ∷ 3 ∷ 0xff ∷ 0 ∷ [])
      (0 ∷ 5 ∷ 6 ∷ 3 ∷ 0xff ∷ 0 ∷ []) 13 refl refl refl
      (unfold init_ecc_layout init_data_layout in init-Fits 5 3 (omega arith) (omega arith))
      (λ i hi. ground arith) (λ i hi. ground arith) (unfold nominal_ecc_size in omega arith) refl
      put fetch chip 4 2 hits keeps bytes tag scratch (omega arith) (omega arith) refl (omega arith)
      (omega arith) [] blank pool 100 116 [] pool-IsPool

flash_read_page_tag-flash_write_page_combine_example :
    let (ret, chip', headed, ready, pool') =
      flash_write_page_combine attr
        (write_page put)
        (read_page fetch)
        13
        chip
        4
        2
        bytes
        tag
        scratch
        pool in
    let (ret', tag', pool'') =
      flash_read_page_tag attr (read_page fetch) 13 chip' 4 2 erased_tag pool' in
    (ret' ≡ no_err)
    × (tag' ≡ record ready { data_sum = 0xffff })
    × (tag' ≡ written_tag tag 0xffff)
    × IsPool pool'' (100 ∷ 116 ∷ [])
flash_read_page_tag-flash_write_page_combine_example =
    flash_read_page_tag-flash_write_page_combine attr (9 ∷ 3 ∷ 0xff ∷ 0 ∷ [])
      (0 ∷ 5 ∷ 6 ∷ 3 ∷ 0xff ∷ 0 ∷ []) 13 refl refl refl
      (unfold init_ecc_layout init_data_layout in init-Fits 5 3 (omega arith) (omega arith))
      (λ i hi. ground arith) (λ i hi. ground arith) (unfold nominal_ecc_size in omega arith) refl
      put fetch chip 4 2 hits keeps bytes tag scratch (omega arith) (omega arith) refl (omega arith)
      (omega arith) erased_tag pool 100 116 [] pool-IsPool
