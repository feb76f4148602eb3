-- ===== src/TagStore/Examples.antt =====
-- The repair of a stored tag at an example.
use esp_uffs.Prelude.{◌≡◌, refl, arith}
use esp_uffs.Ecc.{fixed, flip}
use esp_uffs.BlockInfo.{Tags}
use esp_uffs.TagStore.{tag_bytes, tag_make_ecc, tag_ecc_correct}
use esp_uffs.TagStore.Repair.{tag_ecc_correct-flip}

abbrev tag : Tags
tag = record {
  dirty = 0;
  valid = 0;
  kind = 1;
  block_ts = 2;
  data_len = 508;
  serial = 77;
  parent = 5;
  page_id = 9;
  reserved = 0xf;
  tag_ecc = 0;
  data_sum = 0xffff;
  seal_byte = 0;
}

-- The lowest bit of the serial number is read wrong.
abbrev read_tag : Tags
read_tag = record tag { serial = 76; tag_ecc = (tag_make_ecc tag).tag_ecc }

tag_ecc_correct-flip_example : tag_ecc_correct read_tag ≡ (fixed 1, tag_make_ecc tag)
unfolding tag_make_ecc tag_bytes flip
tag_ecc_correct-flip_example =
    tag_ecc_correct-flip tag read_tag 2 2 (omega arith) (omega arith) (omega arith) refl
      (refl, refl) refl
