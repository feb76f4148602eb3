-- ===== src/Flush/Dirty.antt =====
-- src/uffs_buf.c: a round of the copy that writes a dirty buffer.
use esp_uffs.Prelude.{ℕ, ◌≡◌, refl, sym, ◌∙◌, ap, List, some, ◌==◌, inl, inr, Bool-cases, ltb, ◌||◌}
use esp_uffs.Public.{get_tag}
use esp_uffs.Buf.{Buf}
use esp_uffs.DirtyBuf.{find_buf_in_dirty_list}
use esp_uffs.Flush.{FlashCalls, Work, Owner, Copying, put_tag, fresh_tag, copy_dirty}
use esp_uffs.Flush.Frame.{find_buf_in_dirty_list-Member}
use esp_uffs.Flush.Laws.{
  IsFlash, Page, RoundDone, SameBlocks, SameBufs, write_fresh-SameBlocks, IsReady,
  fresh_tag-FitsTag,
}

module _ {D : Type 0} (calls : FlashCalls D) (held : D → ℕ → ℕ → Page) (o : Owner) (pages : ℕ)
    (dirty : List ℕ) where
  pub copy_dirty-RoundDone :
      (w0 : Work D) (i : ℕ) (c : Copying D) (p : ℕ)
      → IsFlash calls held
      → IsReady calls held o pages dirty w0
      → SameBufs w0.bufs c.work.bufs
      → SameBlocks calls held o pages dirty w0 c.work
      → find_buf_in_dirty_list w0.bufs.buf i dirty ≡ some p
      → RoundDone calls held o pages dirty w0 i c.work.dev (copy_dirty calls o i c p)
  unfolding copy_dirty put_tag fresh_tag
  copy_dirty-RoundDone w0 i c p laws v s f found =
      let w = c.work in
      let b = w.bufs.buf p in
      let tag = fresh_tag o i b.data_len (get_tag w.fresh i) in
      let (f', others, now) =
        write_fresh-SameBlocks calls held o pages dirty w0 w i p tag laws v f
          (fresh_tag-FitsTag o i b.data_len (get_tag w.fresh i)) in
      let (m, e) = find_buf_in_dirty_list-Member w0.bufs.buf i p dirty found in
      let same = s.buf p (v.dirty_listed p m) in
      elim (Bool-cases ((b.data_len == 0) || b.trunc_tail)) [
        | inl cut ↦ elim (Bool-cases (ltb 0 b.data_len)) [
          | inl some_data ↦
              rw (cut, some_data)
                (
                  s,
                  f',
                  others,
                  λ no good. cc,
                  λ yes. inl (
                    p,
                    found,
                    ap (λ (x : Buf). (x.data_len == 0) || x.trunc_tail) (sym same) ∙ cut,
                  ),
                )
          | inr no_data ↦
              rw (cut, no_data)
                (
                  s,
                  record { old = f.old; fresh = f.fresh; read = f.read },
                  λ j ne. refl,
                  λ no good. cc,
                  λ yes. inl (
                    p,
                    found,
                    ap (λ (x : Buf). (x.data_len == 0) || x.trunc_tail) (sym same) ∙ cut,
                  ),
                )
        ]
        | inr whole ↦ rw whole (
          s,
          f',
          others,
          λ on good. (
            b.content,
            b.data_len,
            inl (p, found, ap (λ (x : Buf). x.content) same, ap (λ (x : Buf). x.data_len) same),
            now good,
          ),
          λ yes. cc,
        )
      ]
  -- A buffer is cut to a page and written; only it changes among the buffers.
