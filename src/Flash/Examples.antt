-- ===== src/Flash/Examples.antt =====
-- The theorems on src/uffs_flash.c's spare area at a small device.
use esp_uffs.Prelude.{ℕ, ◌+◌, ◌-◌, ◌<◌, ◌≤◌, ◌≡◌, refl, none, some, false, arith}
use esp_uffs.Flash.{
  Bytes, StorageAttr, ecc_soft, is_ecc_none, init_spare_layout, calculate_spare_data_size,
  flash_make_spare,
}
use esp_uffs.Flash.Layout.{flash_make_spare-bounds}

-- 512 bytes, with the block status at offset 5.
abbrev attr : StorageAttr
attr = record {
  page_data_size = 512;
  pages_per_block = 32;
  spare_size = 32;
  block_status_offs = 5;
  layout_by_flash = false;
  ecc_opt = ecc_soft;
  ecc_size = 6;
  ecc_layout = none;
  data_layout = none;
}

abbrev ts : Bytes
ts = λ i. i + 1

abbrev code : Bytes
code = λ i. 100 + i

abbrev blank : Bytes
blank = λ i. 7

spare_size_16 : calculate_spare_data_size (init_spare_layout attr) ≡ 16
unfolding calculate_spare_data_size init_spare_layout
spare_size_16 = refl

flash_make_spare-bounds_example :
    let n = calculate_spare_data_size (init_spare_layout attr) in
    let made = flash_make_spare (init_spare_layout attr) n ts (some code) blank in
    (5 < n - 1) × (made (n - 1) ≡ 0) × (made 5 ≡ 0xff) × ((x : ℕ) → n ≤ x → made x ≡ 7)
flash_make_spare-bounds_example =
    flash_make_spare-bounds attr (unfold is_ecc_none in refl) (omega arith) (omega arith)
      (omega arith) ts code blank
