-- ===== src/Flash/Layout.antt =====
-- The layout that `InitSpareLayout` of src/uffs_flash.c makes, and the spare data in it.
use esp_uffs.Prelude.{
  ℕ, ◌+◌, ◌-◌, ◌<◌, ◌≤◌, ◌==◌, ◌≡◌, refl, ◌∙◌, List, false, some, ltb, if◌then◌else◌, arith, length,
  ◌⊎◌, inl, inr,
}
use esp_uffs.Flash.{
  Bytes, tag_store_size, StorageAttr, is_ecc_none, init_data_layout, init_ecc_layout,
  init_spare_layout, calculate_spare_data_size, flash_make_spare, layout_last, last_loop,
}
use esp_uffs.Flash.Spare.{Fits, flash_make_spare-elsewhere}
use esp_uffs.Flash.Place.{place, Holds}

data_place :
    (s i : ℕ)
    → s < 255
    → i < tag_store_size
    → place (init_data_layout s) i
      ≡ (if ltb i s then i else if ltb s tag_store_size then i + 1 else i)
unfolding init_data_layout
data_place s i hs hi = ground arith

ecc_place :
    (s ecc_size i : ℕ)
    → s < 255
    → ecc_size < 245
    → i < ecc_size
    → place (init_ecc_layout s ecc_size) i ≡ (
        if ltb (tag_store_size + i) s
        then tag_store_size + i
        else if ltb s (tag_store_size + ecc_size)
        then tag_store_size + i + 1
        else tag_store_size + i)
unfolding init_ecc_layout
ecc_place s ecc_size i hs he hi = ground arith

data-Holds : (s : ℕ) → s < 255 → Holds (init_data_layout s) tag_store_size
unfolding init_data_layout
data-Holds s hs = ground arith

ecc-Holds :
    (s ecc_size : ℕ) → s < 255 → ecc_size < 245 → Holds (init_ecc_layout s ecc_size) ecc_size
unfolding init_ecc_layout
ecc-Holds s ecc_size hs he = ground arith

data_last :
    (s : ℕ)
    → s < 255
    → last_loop (init_data_layout s) tag_store_size 0 ≡ (if ltb s tag_store_size then 9 else 8)
unfolding init_data_layout last_loop
data_last s hs = ground arith

ecc_last :
    (s ecc_size : ℕ)
    → s < 255
    → ecc_size < 245
    → 0 < ecc_size
    → last_loop (init_ecc_layout s ecc_size) ecc_size 0
      ≡ (if ltb s (tag_store_size + ecc_size) then 9 + ecc_size else 8 + ecc_size)
unfolding init_ecc_layout last_loop
ecc_last s ecc_size hs he pos = ground arith

-- What `InitSpareLayout` gives, with the layouts out of their options.
record IsInit (attr : StorageAttr) (s : ℕ) : Type 0 where
  data_is : attr.data_layout ≡ some (init_data_layout s)
  ecc_is : attr.ecc_layout ≡ some (init_ecc_layout s attr.ecc_size)
  s_is : attr.block_status_offs ≡ s
  with_ecc : is_ecc_none attr.ecc_opt ≡ false

calculated :
    (attr : StorageAttr) (s : ℕ)
    → s < 255
    → attr.ecc_size < 245
    → 0 < attr.ecc_size
    → IsInit attr s
    → calculate_spare_data_size attr
      ≡ (if ltb s (tag_store_size + attr.ecc_size) then 10 + attr.ecc_size else s + 2)
unfolding calculate_spare_data_size layout_last
calculated attr s hs he pos v =
    rw (v.data_is, v.ecc_is, v.s_is, v.with_ecc)
      (ground (arith, data_last s hs, ecc_last s attr.ecc_size hs he pos))

pub init-Fits :
    (s ecc_size : ℕ)
    → s < 255
    → ecc_size < 245
    → Fits (init_ecc_layout s ecc_size) (init_data_layout s) ecc_size
init-Fits s ecc_size hs he = record {
  ecc_holds = ecc-Holds s ecc_size hs he;
  ecc_apart = λ i j hi hj e.
      ground (arith, ecc_place s ecc_size i hs he hi, ecc_place s ecc_size j hs he hj);
  tag_holds = data-Holds s hs;
  tag_apart = λ i j hi hj e. ground (arith, data_place s i hs hi, data_place s j hs hj);
  between = λ i j hi hj e. ground (arith, ecc_place s ecc_size i hs he hi, data_place s j hs hj);
}

data_length : (s : ℕ) → length (init_data_layout s) ≤ 6
unfolding init_data_layout
data_length s = ground arith

ecc_length : (s ecc_size : ℕ) → length (init_ecc_layout s ecc_size) ≤ 6
unfolding init_ecc_layout
ecc_length s ecc_size = ground arith

module _ (attr : StorageAttr) (with_ecc : is_ecc_none attr.ecc_opt ≡ false)
    (hs : attr.block_status_offs < 255) (pos : 0 < attr.ecc_size) (he : attr.ecc_size < 245) where
  abbrev pub inited : StorageAttr
  inited = init_spare_layout attr

  inited-IsInit : IsInit inited attr.block_status_offs
  unfolding init_spare_layout
  inited-IsInit = record {
    data_is = refl;
    ecc_is = rw with_ecc refl;
    s_is = refl;
    with_ecc = with_ecc;
  }

  total : calculate_spare_data_size inited ≡ (
      if ltb attr.block_status_offs (tag_store_size + attr.ecc_size)
      then 10 + attr.ecc_size
      else attr.block_status_offs + 2)
  unfolding init_spare_layout
  total = calculated inited attr.block_status_offs hs he pos inited-IsInit

  -- With ECC, a code of 1 to 244 bytes and a status offset below 255, the layouts of InitSpareLayout
  -- fit their arrays of six bytes, have room for the code and the tag, and give every byte a place
  -- of its own.
  pub init_spare_layout-Fits :
      (e d : List ℕ) × (inited.ecc_layout ≡ some e)
      × (inited.data_layout ≡ some d)
      × (length e ≤ 6)
      × (length d ≤ 6)
      × Fits e d attr.ecc_size
  init_spare_layout-Fits =
      let s = attr.block_status_offs in
      (
        init_ecc_layout s attr.ecc_size,
        init_data_layout s,
        unfold init_spare_layout in inited-IsInit.ecc_is,
        inited-IsInit.data_is,
        ecc_length s attr.ecc_size,
        data_length s,
        init-Fits s attr.ecc_size hs he,
      )

  elsewhere :
      (x : ℕ) (ts ecc spare : Bytes)
      → (x ≡ attr.block_status_offs) ⊎ (calculate_spare_data_size inited ≤ x + 1)
      → let n = calculate_spare_data_size inited in
        flash_make_spare inited n ts (some ecc) spare x
        ≡ (if x == n - 1 then 0 else if ltb x n then 0xff else spare x)
  unfolding init_spare_layout
  elsewhere x ts ecc spare out =
      let s = attr.block_status_offs in
      flash_make_spare-elsewhere inited (init_ecc_layout s attr.ecc_size) (init_data_layout s)
        (calculate_spare_data_size inited) ts ecc spare x inited-IsInit.ecc_is inited-IsInit.data_is
        (init-Fits s attr.ecc_size hs he)
        (λ i hi e. ground (arith, total, ecc_place s attr.ecc_size i hs he hi))
        (λ i hi e. ground (arith, total, data_place s i hs hi))

  -- With ECC, a code of 1 to 244 bytes and a status offset below 255, and with the layouts of
  -- InitSpareLayout and the size of CalculateSpareDataSize: uffs_FlashMakeSpare leaves the seal 0 in
  -- the last byte of the spare data and ones in the block status byte, which lies before it, and
  -- writes no byte behind the spare data.
  pub flash_make_spare-bounds :
      (ts ecc spare : Bytes)
      → let n = calculate_spare_data_size inited in
        let made = flash_make_spare inited n ts (some ecc) spare in
        (attr.block_status_offs < n - 1)
        × (made (n - 1) ≡ 0)
        × (made attr.block_status_offs ≡ 0xff)
        × ((x : ℕ) → n ≤ x → made x ≡ spare x)
  flash_make_spare-bounds ts ecc spare =
      let n = calculate_spare_data_size inited in
      (
        ground (arith, total),
        elsewhere (n - 1) ts ecc spare (inr (omega arith)) ∙ ground arith,
        elsewhere attr.block_status_offs ts ecc spare (inl refl) ∙ ground (arith, total),
        (λ x h. elsewhere x ts ecc spare (inr (omega arith)) ∙ ground (arith, total)),
      )

  -- Every byte of the code and of the tag lies before the seal.
  pub init_spare_layout-within :
      ((i : ℕ)
        → i < attr.ecc_size
        → place (init_ecc_layout attr.block_status_offs attr.ecc_size) i
          < calculate_spare_data_size inited - 1)
      × ((i : ℕ)
          → i < tag_store_size
          → place (init_data_layout attr.block_status_offs) i
            < calculate_spare_data_size inited - 1)
  init_spare_layout-within =
      let s = attr.block_status_offs in
      (
        (λ i hi. ground (arith, total, ecc_place s attr.ecc_size i hs he hi)),
        (λ i hi. ground (arith, total, data_place s i hs hi)),
      )
