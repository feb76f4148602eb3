-- ===== src/FlashPage/TagBack.antt =====
-- A tag that was written by src/uffs_flash.c is read back.
use esp_uffs.Prelude.{ℕ, ◌-◌, ◌<◌, ◌≡◌, refl, ◌∙◌, ap, List, ◌∷◌, true, false, none, some, arith}
use esp_uffs.Pool.{Pool}
use esp_uffs.Pool.Chain.{IsPool}
use esp_uffs.Ecc.{ecc_make}
use esp_uffs.Ecc.Whole.{Hit}
use esp_uffs.BadBlock.{FlashResult, no_err}
use esp_uffs.BlockInfo.{Tags, flash_have_err}
use esp_uffs.TagStore.{of_list, tag_bytes, tag_make_ecc}
use esp_uffs.TagStore.Repair.{
  IsStored, tag_of_bytes-tag_bytes, tag_of_bytes-ext, tag_ecc_correct-whole, tag_make_ecc-IsStored,
}
use esp_uffs.Flash.{
  Bytes, StorageAttr, ecc_soft, is_ecc_none, flash_make_spare, flash_unload_spare, unload_loop,
  tag_store_size,
}
use esp_uffs.Flash.Place.{place, unload_first}
use esp_uffs.Flash.Spare.{Fits, flash_make_spare-tag, flash_make_spare-elsewhere}
use esp_uffs.FlashPage.{
  PageRead, Wanted, read_page, setup_tag, flash_read_page_tag, read_raw_tag, check_tag, unload_into,
  after_ecc,
}
use esp_uffs.FlashPage.ReadBack.{Keeps, get-ne, get_put}

-- The tag as it is written, with what is not stored.
abbrev pub written_tag : Tags → ℕ → Tags
written_tag tag data_sum =
    tag_make_ecc (record tag { dirty = 0; valid = 0; seal_byte = 0; data_sum = data_sum })

written_tag-IsStored :
    (tag : Tags) (s : ℕ)
    → IsStored tag
    → IsStored (record tag { dirty = 0; valid = 0; seal_byte = 0; data_sum = s })
written_tag-IsStored tag s v = ground arith

pub setup_tag-soft :
    (attr : StorageAttr) (tag : Tags) (s : ℕ)
    → attr.ecc_opt ≡ ecc_soft
    → tag_bytes (setup_tag attr tag) ≡ tag_bytes (written_tag tag s)
unfolding setup_tag is_ecc_none tag_make_ecc tag_bytes
setup_tag-soft attr tag s soft = rw soft refl

abbrev wanted_tag : Wanted
wanted_tag = record { page = false; ecc = false; spare = true; ecc_store = false }

module _ (attr : StorageAttr) (ecc_layout data_layout : List ℕ) (n : ℕ)
    (soft : attr.ecc_opt ≡ ecc_soft) (he : attr.ecc_layout ≡ some ecc_layout)
    (hd : attr.data_layout ≡ some data_layout) (v : Fits ecc_layout data_layout attr.ecc_size)
    (within : (i : ℕ) → i < attr.ecc_size → place ecc_layout i < n - 1)
    (tag_within : (i : ℕ) → i < tag_store_size → place data_layout i < n - 1) where
  read_back :
      (tag old : Tags) (code spare read : Bytes)
      → IsStored tag
      → ((i : ℕ)
          → i < n
          → read i
            ≡ flash_make_spare attr n
                (of_list (tag_bytes (setup_tag attr tag)))
                (some code)
                spare
                i)
      → (read (n - 1) ≡ 0)
        × (unload_into
              (flash_unload_spare attr read (some (of_list (tag_bytes old))) none).0
              (record old { seal_byte = 0 })
            ≡ written_tag tag old.data_sum)
  unfolding flash_unload_spare unload_into
  read_back tag old code spare read ok same =
      let ts = of_list (tag_bytes (setup_tag attr tag)) in
      let buf = of_list (tag_bytes old) in
      let ready = written_tag tag old.data_sum in
      (
        same (n - 1) (omega (arith, tag_within 0 (omega arith)))
            ∙ flash_make_spare-elsewhere attr ecc_layout data_layout n ts code spare (n - 1) he hd v
                (λ i hi e. omega (arith, within i hi)) (λ i hi e. omega (arith, tag_within i hi))
            ∙ ground arith,
        rw hd (
            tag_of_bytes-ext (unload_loop data_layout read tag_store_size buf 0)
              (of_list (tag_bytes ready)) (record old { seal_byte = 0 })
              (λ i hi.
                unload_first data_layout read tag_store_size buf i v.tag_holds hi
                ∙ same (place data_layout i) (omega (arith, tag_within i hi))
                ∙ flash_make_spare-tag attr data_layout n ts spare (some code) i hd v.tag_holds
                    v.tag_apart hi
                ∙ ap (λ bs. of_list bs i) (setup_tag-soft attr tag old.data_sum soft))
            ∙ tag_of_bytes-tag_bytes ready (record old { seal_byte = 0 })
                (tag_make_ecc-IsStored _ (written_tag-IsStored tag old.data_sum ok))
                (unfold tag_make_ecc in (refl, refl))),
      )

  checked_tag :
      (tag : Tags) (s : ℕ)
      → IsStored tag
      → check_tag attr (no_err, written_tag tag s) ≡ (no_err, written_tag tag s)
  unfolding check_tag flash_have_err is_ecc_none after_ecc
  checked_tag tag s ok =
      let sealed : (written_tag tag s).seal_byte ≡ 0 = unfold tag_make_ecc in refl in
      let whole = tag_ecc_correct-whole _ (written_tag-IsStored tag s ok) in
      rw (soft, whole, sealed) refl

  module _ {Chip : Type 0} (by_uffs : attr.layout_by_flash ≡ false)
      (f : Chip → ℕ → ℕ → List ℕ → Bytes → FlashResult × Chip)
      (g : Chip → ℕ → ℕ → Wanted → PageRead) (chip : Chip) (block page : ℕ) (es : List Hit)
      (k : Keeps f g chip block page n es) where
    -- The tag that the driver was given is read back.
    pub flash_read_page_tag-write_raw :
        (headed : List ℕ) (tag old : Tags) (spare : Bytes) (pool : Pool) (x : ℕ) (xs : List ℕ)
        → IsStored tag
        → IsPool pool (x ∷ xs)
        → let made =
            flash_make_spare attr n
              (of_list (tag_bytes (setup_tag attr tag)))
              (some (of_list (ecc_make (some headed) true)))
              spare in
          flash_read_page_tag attr
            (read_page g)
            n
            (f chip block page headed made).1
            block
            page
            old
            pool
          ≡ (no_err, written_tag tag old.data_sum, get_put pool)
    unfolding flash_read_page_tag
    flash_read_page_tag-write_raw headed tag old spare pool x xs ok free =
        let code = of_list (ecc_make (some headed) true) in
        let made =
          flash_make_spare attr n (of_list (tag_bytes (setup_tag attr tag))) (some code) spare in
        let chip' = (f chip block page headed made).1 in
        let got = g chip' block page wanted_tag in
        let back =
          read_back tag old code spare got.spare ok (k.same_spare headed made wanted_tag) in
        let raw : read_raw_tag attr (read_page g) n chip' block page old
            ≡ (no_err, written_tag tag old.data_sum) =
          unfold read_raw_tag flash_have_err in
          rw (k.no_error headed made wanted_tag, back.0, back.1) refl in
        rw (raw, checked_tag tag old.data_sum ok, get-ne pool x xs free) refl
