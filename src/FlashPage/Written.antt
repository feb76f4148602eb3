-- ===== src/FlashPage/Written.antt =====
-- A page that src/uffs_flash.c writes and checks is read back, with its tag.
use esp_uffs.Prelude.{
  ℕ, ◌-◌, ◌<◌, ◌≤◌, ◌≡◌, refl, sym, ◌∙◌, ap, subst, List, [], ◌∷◌, ◌++◌, true, false, none, some,
  Option, ◌==◌, ◌||◌, if◌then◌else◌, length, drop, length-drop, arith, zero, suc,
}
use esp_uffs.Prelude.Words.{AreBytes}
use esp_uffs.Pool.{Pool, pool_get, pool_put, pool_verify}
use esp_uffs.Pool.Chain.{IsPool}
use esp_uffs.Pool.Walk.{pool_get-IsPool, pool_put-IsPool}
use esp_uffs.Ecc.{ecc_make}
use esp_uffs.Ecc.Whole.{Hit, AllInChunk, count}
use esp_uffs.BadBlock.{FlashResult, no_err, ecc_ok, bad_blk}
use esp_uffs.BlockInfo.{Tags, flash_have_err}
use esp_uffs.TagStore.{of_list, tag_bytes, tag_make_ecc}
use esp_uffs.TagStore.Repair.{IsStored}
use esp_uffs.Flash.{
  Bytes, StorageAttr, ecc_soft, is_ecc_none, nominal_ecc_size, flash_make_spare, tag_store_size,
}
use esp_uffs.Flash.Place.{place}
use esp_uffs.Flash.Spare.{Fits}
use esp_uffs.FlashPage.{
  PageRead, Wanted, read_page, write_page, mini_header, setup_tag, same_bytes, Scratch, verify_page,
  verify_tag, verify_written, flash_read_page, flash_read_page_tag, flash_write_page_combine,
  flash_is_bad_block,
}
use esp_uffs.FlashPage.ReadBack.{
  Keeps, AreBytes-drop, get-ne, get_put, get-put-IsPool, pool_verify-get_put, pool_verify-pool_get,
  write_raw-soft, flash_read_page-write_raw,
}
use esp_uffs.FlashPage.TagBack.{written_tag, setup_tag-soft, flash_read_page_tag-write_raw}

same_bytes_self : (xs : List ℕ) → same_bytes xs xs ≡ true
unfolding same_bytes
same_bytes_self [] = refl
same_bytes_self (x ∷ xs) =
    let one : (x == x) ≡ true = ground arith in rw (one, same_bytes_self xs) refl

-- A page read with repaired bits or without is not a bad block.
good_read :
    (c : ℕ)
    → let ret = if c == 0 then no_err else ecc_ok in
      flash_is_bad_block (if flash_have_err ret || true then ret else bad_blk) ≡ false
unfolding flash_have_err flash_is_bad_block
good_read zero = refl
good_read (suc c) = ground arith

-- A device with two free spare buffers, and what is written.
module _ (attr : StorageAttr) (ecc_layout data_layout : List ℕ) (n : ℕ)
    (soft : attr.ecc_opt ≡ ecc_soft) (he : attr.ecc_layout ≡ some ecc_layout)
    (hd : attr.data_layout ≡ some data_layout) (v : Fits ecc_layout data_layout attr.ecc_size)
    (within : (i : ℕ) → i < attr.ecc_size → place ecc_layout i < n - 1)
    (tag_within : (i : ℕ) → i < tag_store_size → place data_layout i < n - 1)
    (room : nominal_ecc_size attr ≤ attr.ecc_size) {Chip : Type 0}
    (by_uffs : attr.layout_by_flash ≡ false)
    (f : Chip → ℕ → ℕ → List ℕ → Bytes → FlashResult × Chip) (g : Chip → ℕ → ℕ → Wanted → PageRead)
    (chip : Chip) (block page : ℕ) (es : List Hit) (k : Keeps f g chip block page n es)
    (bytes : List ℕ) (tag : Tags) (s : Scratch) (ok : AreBytes bytes)
    (inside : AllInChunk es (mini_header ++ drop 4 bytes))
    (len : length bytes ≡ attr.page_data_size) (size : 4 ≤ attr.page_data_size)
    (stored : IsStored tag) where
  abbrev headed : List ℕ
  headed = mini_header ++ drop 4 bytes

  abbrev made : Bytes
  made =
      flash_make_spare attr n (of_list (tag_bytes (setup_tag attr tag)))
        (some (of_list (ecc_make (some headed) true))) s.spare

  abbrev after_write : Chip
  after_write = (f chip block page headed made).1

  read_data :
      (old : List ℕ) (ecc_store : Bytes) (pool : Pool) (x : ℕ) (xs : List ℕ)
      → IsPool pool (x ∷ xs)
      → flash_read_page attr (read_page g) after_write block page old false ecc_store pool
        ≡ ((if count es == 0 then no_err else ecc_ok), headed, get_put pool)
  read_data old ecc_store pool x xs free =
      flash_read_page-write_raw attr n soft by_uffs f g chip block page es k ecc_layout data_layout
        he hd v within room headed old (setup_tag attr tag) s.spare ecc_store pool x xs
        (omega arith, (omega arith, (omega arith, (omega arith, AreBytes-drop 4 bytes ok)))) inside
        (omega (arith, length-drop 4 bytes)) size free

  read_tag :
      (old : Tags) (pool : Pool) (x : ℕ) (xs : List ℕ)
      → IsPool pool (x ∷ xs)
      → flash_read_page_tag attr (read_page g) n after_write block page old pool
        ≡ (no_err, written_tag tag old.data_sum, get_put pool)
  read_tag old pool x xs free =
      flash_read_page_tag-write_raw attr ecc_layout data_layout n soft he hd v within tag_within
        by_uffs f g chip block page es k headed tag old s.spare pool x xs stored free

  -- The pool that the check of the page leaves.
  abbrev after_page : Option (List ℕ) → Pool → Pool
  after_page clone pool = elim clone [ none ↦ pool | some old ↦ get_put pool ]

  verify_page-good :
      (clone : Option (List ℕ)) (pool : Pool) (y : ℕ) (ys : List ℕ)
      → IsPool pool (y ∷ ys)
      → verify_page attr (read_page g) after_write block page headed clone s.ecc_store pool
        ≡ (false, after_page clone pool)
  unfolding verify_page
  verify_page-good none pool y ys free = refl
  verify_page-good (some old) pool y ys free =
      rw (read_data old s.ecc_store pool y ys free, same_bytes_self headed)
        (ap (λ b. (b, get_put pool)) (good_read (count es)))

  after_page-IsPool :
      (clone : Option (List ℕ)) (pool : Pool) (y : ℕ) (ys : List ℕ)
      → IsPool pool (y ∷ ys)
      → IsPool (after_page clone pool) (y ∷ ys)
        × ((p : ℕ) → pool_verify (after_page clone pool) p ≡ pool_verify pool p)
  after_page-IsPool none pool y ys free = (free, λ p. refl)
  after_page-IsPool (some old) pool y ys free =
      (get-put-IsPool pool y ys free, pool_verify-get_put pool)

  verify_tag-good :
      (pool : Pool) (y : ℕ) (ys : List ℕ)
      → IsPool pool (y ∷ ys)
      → verify_tag attr (read_page g) n after_write block page (setup_tag attr tag) s.chk_tag pool
        ≡ (no_err, get_put pool)
  unfolding verify_tag flash_have_err flash_is_bad_block
  verify_tag-good pool y ys free =
      rw
        (
          read_tag s.chk_tag pool y ys free,
          setup_tag-soft attr tag s.chk_tag.data_sum soft,
          same_bytes_self (tag_bytes (written_tag tag s.chk_tag.data_sum)),
        )
        refl

  verify_written-good :
      (pool : Pool) (y : ℕ) (ys : List ℕ)
      → IsPool pool (y ∷ ys)
      → verify_written attr
          (read_page g)
          n
          after_write
          block
          page
          headed
          (setup_tag attr tag)
          s
          pool
        ≡ (no_err, get_put (after_page s.clone pool))
  unfolding verify_written
  verify_written-good pool y ys free =
      rw
        (
          verify_page-good s.clone pool y ys free,
          verify_tag-good (after_page s.clone pool) y ys
              (after_page-IsPool s.clone pool y ys free).0,
        )
        refl

  -- The pool that the write leaves.
  abbrev after_all : Pool → Pool
  after_all pool = (pool_put (get_put (after_page s.clone (pool_get pool).1)) (pool_get pool).0).1

  -- What the call leaves.
  write_step :
      (pool : Pool) (x y : ℕ) (ys : List ℕ)
      → IsPool pool (x ∷ y ∷ ys)
      → (flash_write_page_combine attr
            (write_page f)
            (read_page g)
            n
            chip
            block
            page
            bytes
            tag
            s
            pool
          ≡ (no_err, after_write, headed, setup_tag attr tag, after_all pool))
        × IsPool (after_all pool) (x ∷ y ∷ ys)
  unfolding flash_write_page_combine
  write_step pool x y ys free =
      let (it, good, out, rest) = pool_get-IsPool pool x (y ∷ ys) free in
      let taken = (pool_get pool).1 in
      let (checked, same) = after_page-IsPool s.clone taken y ys rest in
      let last = get_put (after_page s.clone taken) in
      let fine : pool_verify last x ≡ true =
        pool_verify-get_put (after_page s.clone taken) x
        ∙ same x
        ∙ pool_verify-pool_get pool x
        ∙ good in
      let back =
        (pool_put-IsPool last (y ∷ ys) x (get-put-IsPool (after_page s.clone taken) y ys checked)
          fine out).1 in
      (
        rw
            (
              write_raw-soft attr n soft by_uffs f g chip block page es k headed s.ecc_buf
                  (setup_tag attr tag) s.spare,
              k.accepted headed made,
              verify_written-good taken y ys rest,
              get-ne pool x (y ∷ ys) free,
            )
            (unfold flash_have_err flash_is_bad_block in refl),
        subst (λ a. IsPool (pool_put last a).1 (x ∷ y ∷ ys)) (sym it) back,
      )

  -- With software ECC, a spare area laid out by the file system whose layouts have room for the code
  -- and keep the bytes apart and before the seal, a driver that reports no error and returns the
  -- spare data as written and the page with at most one flipped bit in each 256 bytes, a buffer of
  -- one page of bytes, of four at least, a tag whose fields fit their bits, and two free spare
  -- buffers: uffs_FlashWritePageCombine, which checks the written page with a clone buffer or
  -- without one and its tag, succeeds, and uffs_FlashReadPage then returns the page as written, mini
  -- header included, with UFFS_FLASH_NO_ERR if no bit was flipped and UFFS_FLASH_ECC_OK otherwise,
  -- and the spare buffers are free again.
  pub flash_read_page-flash_write_page_combine :
      (old : List ℕ) (ecc_store : Bytes) (pool : Pool) (x y : ℕ) (ys : List ℕ)
      → IsPool pool (x ∷ y ∷ ys)
      → let (ret, chip', headed', ready, pool') =
          flash_write_page_combine attr
            (write_page f)
            (read_page g)
            n
            chip
            block
            page
            bytes
            tag
            s
            pool in
        let (ret', page', pool'') =
          flash_read_page attr (read_page g) chip' block page old false ecc_store pool' in
        (ret ≡ no_err)
        × (headed' ≡ mini_header ++ drop 4 bytes)
        × (ret' ≡ (if count es == 0 then no_err else ecc_ok))
        × (page' ≡ mini_header ++ drop 4 bytes)
        × IsPool pool'' (x ∷ y ∷ ys)
  flash_read_page-flash_write_page_combine old ecc_store pool x y ys free =
      let (w, free') = write_step pool x y ys free in
      rw (w, read_data old ecc_store (after_all pool) x (y ∷ ys) free')
        (refl, refl, refl, refl, get-put-IsPool (after_all pool) x (y ∷ ys) free')

  -- With software ECC, a spare area laid out by the file system whose layouts have room for the code
  -- and keep the bytes apart and before the seal, a driver that reports no error and returns the
  -- spare data as written and the page with at most one flipped bit in each 256 bytes, a buffer of
  -- one page of bytes, of four at least, and two free spare buffers, a tag whose fields fit their
  -- bits is read back by uffs_FlashReadPageTag as uffs_FlashWritePageCombine wrote it: dirty, valid,
  -- sealed, with its code, without an error; only data_sum, which is not stored, stays that of the
  -- tag that is read into. The spare buffers are free again.
  pub flash_read_page_tag-flash_write_page_combine :
      (old : Tags) (pool : Pool) (x y : ℕ) (ys : List ℕ)
      → IsPool pool (x ∷ y ∷ ys)
      → let (ret, chip', headed', ready, pool') =
          flash_write_page_combine attr
            (write_page f)
            (read_page g)
            n
            chip
            block
            page
            bytes
            tag
            s
            pool in
        let (ret', tag', pool'') =
          flash_read_page_tag attr (read_page g) n chip' block page old pool' in
        (ret' ≡ no_err)
        × (tag' ≡ record ready { data_sum = old.data_sum })
        × (tag' ≡ written_tag tag old.data_sum)
        × IsPool pool'' (x ∷ y ∷ ys)
  flash_read_page_tag-flash_write_page_combine old pool x y ys free =
      let (w, free') = write_step pool x y ys free in
      rw (w, read_tag old (after_all pool) x (y ∷ ys) free')
        (
          refl,
          (unfold setup_tag is_ecc_none tag_make_ecc tag_bytes in rw soft refl),
          refl,
          get-put-IsPool (after_all pool) x (y ∷ ys) free',
        )
