-- ===== src/Flush/Found.antt =====
-- src/uffs_buf.c: a round of the copy that finds the page in the old block.
use esp_uffs.Prelude.{
  ℕ, ◌<◌, ◌≤◌, ◌≡◌, refl, sym, ◌∙◌, ap, subst, List, true, false, none, ◌==◌, ==_iff, ◌⊎◌, inl, inr,
  arith, Bool-cases, ◌&&◌,
}
use esp_uffs.BlockInfo.Expired.{IsInfo}
use esp_uffs.Public.{Loaded, get_tag, tag_is_good, invalid_page, find_best_page_in_block}
use esp_uffs.Public.Best.{best_page}
use esp_uffs.Public.Again.{IsRead, find_best_page_in_block-again}
use esp_uffs.Buf.{buf_get, buf_clone}
use esp_uffs.DirtyBuf.{find_buf_in_dirty_list}
use esp_uffs.Flush.{
  FlashCalls, copy_found, Work, Owner, Copying, with_bufs, copy_cached, with_loaded,
}
use esp_uffs.Flush.Frame.{buf_get-cases}
use esp_uffs.Flush.Laws.{IsFlash, Page, RoundDone, SameBlocks, SameBufs, IsReady}
use esp_uffs.Flush.Cached.{copy_cached-RoundDone}
use esp_uffs.Flush.Cloned.{copy_by_clone-RoundDone}

module _ {D : Type 0} (calls : FlashCalls D) (held : D → ℕ → ℕ → Page) (o : Owner) (pages : ℕ)
    (dirty : List ℕ) where
  copy_got-RoundDone :
      (w0 : Work D) (i : ℕ) (c : Copying D) (page : ℕ)
      → IsFlash calls held
      → IsReady calls held o pages dirty w0
      → SameBufs w0.bufs c.work.bufs
      → SameBlocks calls held o pages dirty w0 c.work
      → find_buf_in_dirty_list w0.bufs.buf i dirty ≡ none
      → page < pages
      → tag_is_good (get_tag w0.old page) ≡ true
      → (get_tag w0.old page).page_id ≡ i
      → RoundDone calls held o pages dirty w0 i c.work.dev
          (copy_cached calls o i c page (buf_get c.work.bufs o.parent o.serial i))
  unfolding copy_cached buf_clone with_bufs
  copy_got-RoundDone w0 i c page laws v s f none_dirty lt good id =
      elim (buf_get-cases c.work.bufs o.parent o.serial i) [
        | inl e ↦
            subst
              (λ r.
                RoundDone calls held o pages dirty w0 i c.work.dev (copy_cached calls o i c page r))
              (sym e)
              (copy_by_clone-RoundDone calls held o pages dirty w0 i c page c.work.bufs.clones laws
                v s f none_dirty lt good id refl)
        | inr (p, m, t, e) ↦
            subst
              (λ r.
                RoundDone calls held o pages dirty w0 i c.work.dev (copy_cached calls o i c page r))
              (sym e)
              (copy_cached-RoundDone calls held o pages dirty w0 i c page p laws v s f none_dirty m
                t)
      ]

  pub copy_found-RoundDone :
      (w0 : Work D) (i : ℕ) (c : Copying D) (page : ℕ)
      → IsFlash calls held
      → IsReady calls held o pages dirty w0
      → SameBufs w0.bufs c.work.bufs
      → SameBlocks calls held o pages dirty w0 c.work
      → find_buf_in_dirty_list w0.bufs.buf i dirty ≡ none
      → ((page ≡ invalid_page)
          × ((j : ℕ)
              → i ≤ j
              → j < pages
              → tag_is_good (get_tag w0.old j) && ((get_tag w0.old j).page_id == i) ≡ false))
        ⊎ ((page < pages)
            × (tag_is_good (get_tag w0.old page) ≡ true)
            × ((get_tag w0.old page).page_id ≡ i))
      → RoundDone calls held o pages dirty w0 i c.work.dev
          (copy_found calls o pages i c page (record { bc = c.work.old; pending = c.work.pending }))
  unfolding copy_found with_loaded
  copy_found-RoundDone w0 i c page laws v s f none_dirty which =
      let f' : SameBlocks calls held o pages dirty w0 c.work = f in
      let stay : SameBlocks calls held o pages dirty w0 c.work = record {
        old = f.old;
        fresh = f.fresh;
        read = f.read;
      } in
      elim (Bool-cases (page == invalid_page)) [
        | inl t ↦ rw t (
          s,
          record { old = f.old; fresh = f.fresh; read = f.read },
          λ j ne. refl,
          λ on ok. cc,
          λ yes. elim which [
            | inl (e, none_left) ↦ inr (none_dirty, none_left)
            | inr (lt, good, id) ↦
                absurd (let at = (==_iff page invalid_page).0 t in let m = v.small in omega arith)
          ],
        )
        | inr real ↦ elim which [
          | inl (e, none_left) ↦
              absurd (let no = (==_iff page invalid_page).1 e in ground (arith, no, real))
          | inr (lt, good, id) ↦
              let l0 : Loaded = record { bc = c.work.old; pending = c.work.pending } in
              let read_tag = calls.read_tag c.work.dev in
              let best = find_best_page_in_block read_tag pages page l0 in
              let info = subst (λ b. IsInfo pages b) (sym f.old) v.info in
              let all_read = subst (λ b. IsRead pages b) (sym f.old) v.all_read in
              let good' = ap (λ b. tag_is_good (get_tag b page)) f.old ∙ good in
              let (b_lt, b_good, b_id) =
                best_page read_tag pages page l0 info all_read lt v.small good' in
              let same =
                find_best_page_in_block-again read_tag pages page l0 all_read lt
                  (let m = v.small in omega arith) in
              let b_good' = ap (λ b. tag_is_good (get_tag b (best.0))) (sym f.old) ∙ b_good in
              let b_id' =
                ap (λ b. (get_tag b (best.0)).page_id) (sym f.old)
                ∙ b_id
                ∙ ap (λ b. (get_tag b page).page_id) f.old
                ∙ id in
              elim (Bool-cases (best.0 == invalid_page)) [
                | inl t ↦
                    rw (real, t)
                      (
                        s,
                        subst
                            (λ l.
                              SameBlocks calls held o pages dirty w0
                                (record c.work { old = l.bc; pending = l.pending }))
                            (sym same) stay,
                        λ j ne. refl,
                        λ on ok. cc,
                        λ yes. cc,
                      )
                | inr g ↦
                    rw (real, g)
                      (subst
                        (λ l. RoundDone calls held o pages dirty w0 i c.work.dev (
                          copy_cached calls o i (with_loaded c l) (best.0)
                            (buf_get c.work.bufs o.parent o.serial i)))
                        (sym same)
                        (copy_got-RoundDone w0 i c (best.0) laws v s f none_dirty b_lt b_good'
                          b_id'))
              ]
        ]
      ]
