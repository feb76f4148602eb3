-- ===== src/Flush/Copy.antt =====
-- src/uffs_buf.c: what the copy of a block to an erased block gives.
use esp_uffs.Prelude.{
  ℕ, zero, suc, ◌+◌, ◌<◌, ◌≤◌, ◌≡◌, ◌≢◌, refl, sym, ◌∙◌, ap, subst, List, Bool, true, false, Option,
  none, some, ◌==◌, ◌&&◌, ==_iff, ◌⊎◌, inl, inr, arith, Bool-cases,
}
use esp_uffs.BadBlock.{no_err}
use esp_uffs.BlockInfo.Expired.{IsInfo}
use esp_uffs.Public.{Loaded, get_tag, tag_is_good, invalid_page, find_page_in_block_with_page_id}
use esp_uffs.Public.Again.{
  IsRead, find_page_in_block_with_page_id-again, find_page_in_block_with_page_id-none,
}
use esp_uffs.Public.Pages.{find_page_in_block_with_page_id-FoundPage}
use esp_uffs.DirtyBuf.{find_buf_in_dirty_list}
use esp_uffs.Flush.{
  FlashCalls, Work, Owner, Copying, is_good_write, copy_found, copy_old, copy_page, after_round,
  copy_loop, start_page, put_tag,
}
use esp_uffs.Flush.Frame.{find_buf_in_dirty_list-same}
use esp_uffs.Flush.Laws.{Page, IsFlash, SameBufs, SameBlocks, IsReady, Copied, Finished, RoundDone}
use esp_uffs.Flush.Dirty.{copy_dirty-RoundDone}
use esp_uffs.Flush.Found.{copy_found-RoundDone}

module _ {D : Type 0} (calls : FlashCalls D) (held : D → ℕ → ℕ → Page) (o : Owner) (pages : ℕ)
    (dirty : List ℕ) where
  copy_old-RoundDone :
      (w0 : Work D) (i : ℕ) (c : Copying D)
      → IsFlash calls held
      → IsReady calls held o pages dirty w0
      → SameBufs w0.bufs c.work.bufs
      → SameBlocks calls held o pages dirty w0 c.work
      → find_buf_in_dirty_list w0.bufs.buf i dirty ≡ none
      → i < pages
      → RoundDone calls held o pages dirty w0 i c.work.dev (copy_old calls o pages i c)
  unfolding copy_old
  copy_old-RoundDone w0 i c laws v s f none_dirty lt =
      let l0 : Loaded = record { bc = c.work.old; pending = c.work.pending } in
      let read_tag = calls.read_tag c.work.dev in
      let first = find_page_in_block_with_page_id read_tag pages i l0 in
      let info = subst (λ b. IsInfo pages b) (sym f.old) v.info in
      let all_read = subst (λ b. IsRead pages b) (sym f.old) v.all_read in
      let (w, found) =
        find_page_in_block_with_page_id-FoundPage read_tag pages i l0 info (omega arith) in
      let same =
        find_page_in_block_with_page_id-again read_tag pages i l0 all_read (omega arith)
          (let m = v.small in omega arith) in
      let at = ap (λ l. l.bc) same ∙ f.old in
      let which : ((first.0 ≡ invalid_page)
            × ((j : ℕ)
                → i ≤ j
                → j < pages
                → tag_is_good (get_tag w0.old j) && ((get_tag w0.old j).page_id == i) ≡ false))
          ⊎ ((first.0 < pages)
              × (tag_is_good (get_tag w0.old (first.0)) ≡ true)
              × ((get_tag w0.old (first.0)).page_id ≡ i)) =
        elim found [
          | inl e ↦ inl (
            e,
            λ j a b.
                ap (λ x. tag_is_good (get_tag x j) && ((get_tag x j).page_id == i)) (sym f.old)
                ∙ find_page_in_block_with_page_id-none read_tag pages i l0 all_read (omega arith)
                    v.small e j a b,
          )
          | inr (a, b, g, e) ↦ inr (
            b,
            ap (λ x. tag_is_good (get_tag x (first.0))) (sym at) ∙ g,
            ap (λ x. (get_tag x (first.0)).page_id) (sym at) ∙ e,
          )
        ] in
      subst
        (λ l.
          RoundDone calls held o pages dirty w0 i c.work.dev
            (copy_found calls o pages i c (first.0) l))
        (sym same)
        (copy_found-RoundDone calls held o pages dirty w0 i c (first.0) laws v s f none_dirty which)

  copy_page-RoundDone :
      (w0 : Work D) (i : ℕ) (c : Copying D) (found : Option ℕ)
      → IsFlash calls held
      → IsReady calls held o pages dirty w0
      → SameBufs w0.bufs c.work.bufs
      → SameBlocks calls held o pages dirty w0 c.work
      → find_buf_in_dirty_list w0.bufs.buf i dirty ≡ found
      → i < pages
      → RoundDone calls held o pages dirty w0 i c.work.dev (copy_page calls o pages i c found)
  unfolding copy_page
  copy_page-RoundDone w0 i c (some p) laws v s f e lt =
      copy_dirty-RoundDone calls held o pages dirty w0 i c p laws v s f e
  copy_page-RoundDone w0 i c none laws v s f e lt = copy_old-RoundDone w0 i c laws v s f e lt

  -- The pages before the one where the loop was left are copied, and a whole copy ends where it should.
  abbrev pub AllCopied : Work D → ℕ × Copying D → Type 0
  AllCopied w0 r =
      SameBufs w0.bufs (r.1.work.bufs)
      × SameBlocks calls held o pages dirty w0 (r.1.work)
      × ((j : ℕ) → j < r.0 → Copied calls held o pages dirty w0 (r.1.work.dev) j)
      × (r.0 ≤ pages)
      × (r.1.ended ≡ some true → (r.0 ≡ pages) ⊎ Finished calls held o pages dirty w0 (r.0))

  after_round-AllCopied :
      (w0 : Work D) (ended : Option Bool) (good : Bool) (i : ℕ) (r : Copying D)
      (later : ℕ × Copying D)
      → r.ended ≡ ended
      → is_good_write r.op ≡ good
      → AllCopied w0 (i, r)
      → (r.ended ≡ none → is_good_write r.op ≡ true → AllCopied w0 later)
      → AllCopied w0 (after_round calls ended good i r later)
  unfolding after_round
  after_round-AllCopied w0 (some whole) good i r later e g left go = left
  after_round-AllCopied w0 none true i r later e g left go = go e g
  after_round-AllCopied w0 none false i r later e g (s, f, before, fits, end) go =
      (s, record { old = f.old; fresh = f.fresh; read = f.read }, before, fits, λ whole. cc)

  copy_loop-AllCopied :
      (w0 : Work D) (rounds i : ℕ) (c : Copying D)
      → IsFlash calls held
      → IsReady calls held o pages dirty w0
      → SameBufs w0.bufs c.work.bufs
      → SameBlocks calls held o pages dirty w0 c.work
      → i + rounds ≡ pages
      → ((j : ℕ) → j < i → Copied calls held o pages dirty w0 c.work.dev j)
      → AllCopied w0 (copy_loop calls o pages dirty rounds i c)
  unfolding copy_loop start_page put_tag
  copy_loop-AllCopied w0 zero i c laws v s f fits done = (
    s,
    record { old = f.old; fresh = f.fresh; read = f.read },
    done,
    omega arith,
    λ whole. inl (omega arith),
  )
  copy_loop-AllCopied w0 (suc rounds) i c laws v s f fits done =
      let same =
        find_buf_in_dirty_list-same w0.bufs.buf c.work.bufs.buf i dirty
          (λ q m. s.buf q (v.dirty_listed q m)) in
      let begun = start_page calls o i c in
      let g : SameBlocks calls held o pages dirty w0 begun.work = record {
        old = f.old;
        fresh = f.fresh;
        read = f.read;
      } in
      let r = copy_page calls o pages i begun (find_buf_in_dirty_list c.work.bufs.buf i dirty) in
      let (s', f', others, now, end) =
        copy_page-RoundDone w0 i begun (find_buf_in_dirty_list c.work.bufs.buf i dirty) laws v s g
          (sym same) (omega arith) in
      let before : (j : ℕ) → j < i → Copied calls held o pages dirty w0 r.work.dev j = λ j below.
        let (content, data_len, source, h) = done j below in
        (content, data_len, source, others j (omega arith) ∙ h) in
      let left : AllCopied w0 (i, r) = (s', f', before, omega arith, λ whole. inr (end whole)) in
      after_round-AllCopied w0 r.ended (is_good_write r.op) i r
        (copy_loop calls o pages dirty rounds (i + 1) r) refl refl left
        (λ on good. copy_loop-AllCopied w0 rounds (i + 1) r laws v s' f' (omega arith) (λ j below.
          elim (Bool-cases (j == i)) [
            | inl t ↦
                subst (λ k. Copied calls held o pages dirty w0 r.work.dev k)
                  (sym ((==_iff j i).0 t)) (now on good)
            | inr n ↦ before j (let ne : j ≢ i = ground arith in omega arith)
          ]))

  -- For a flash where a write without an error, under a tag that fits its bits, puts the data bytes
  -- of the buffer and the tag into that page and no other, and with every tag of the old block read
  -- and its expired_count right, at most 65534 pages in a block, another block as the new one,
  -- buffers with at most a page of data that are held fewer than 65534 times, and clone buffers
  -- apart from the others, the copy loop of uffs_BufFlush_Exist_With_BlockRecover from page 0 on
  -- does this: each page before the one where it was left has the owner, the page id, the length and
  -- the time stamp of the new block, each cut to its bits in a tag, and the data bytes of the dirty
  -- buffer with that page id or, where there is none, a cached buffer of the page or a good page of
  -- the old block with that id, read from the flash and clipped to a page; all buffers but the
  -- clones and the old block are as before; and a copy that is reported whole ended behind the last
  -- page, at a truncation or an empty dirty buffer, or at a page id that neither a dirty buffer nor
  -- a good page of the old block has.
  pub copy_loop-Copied :
      (w : Work D) (sum : ℕ)
      → IsFlash calls held
      → IsReady calls held o pages dirty w
      → AllCopied w (
          copy_loop calls o pages dirty pages 0
            (record { work = w; sum = sum; op = no_err; ended = none }))
  copy_loop-Copied w sum laws v =
      copy_loop-AllCopied w pages 0 (record { work = w; sum = sum; op = no_err; ended = none }) laws
        v
        (record { groups = refl; clones = refl; limit = refl; buf = λ q a. refl; list = λ q m. m })
        (record { old = refl; fresh = refl; read = λ k c. refl }) (omega arith)
        (λ j below. absurd (omega arith))
