-- ===== src/Flush/Cloned.antt =====
-- src/uffs_buf.c: a round of the copy that reads the old block into a clone buffer.
use esp_uffs.Prelude.{
  ℕ, ◌<◌, ◌≡◌, ◌≢◌, refl, sym, ◌∙◌, ap, subst, List, [], ◌∷◌, true, none, some, inl, inr,
  Bool-cases, ◌&&◌,
}
use esp_uffs.Pool.Chain.{Member, Absent}
use esp_uffs.BadBlock.{bad_block_add_by_flash_result}
use esp_uffs.BlockInfo.{flash_have_err}
use esp_uffs.Public.{get_tag, tag_is_good}
use esp_uffs.Buf.{empty, Buf, PageBufs, store, clone_into, buf_free_clone, clone_buf_mark}
use esp_uffs.Buf.Memory.{store_self, store_ne}
use esp_uffs.DirtyBuf.{find_buf_in_dirty_list}
use esp_uffs.Flush.{
  FlashCalls, is_none, Work, Owner, Copying, clip, clone_of, with_bufs, copy_clone, copy_by_clone,
}
use esp_uffs.Flush.Frame.{buf_free_clone-back}
use esp_uffs.Flush.Laws.{IsFlash, Page, RoundDone, SameBlocks, SameBufs, IsReady}
use esp_uffs.Flush.Cached.{copy_buf-now}

module _ {D : Type 0} (calls : FlashCalls D) (held : D → ℕ → ℕ → Page) (o : Owner) (pages : ℕ)
    (dirty : List ℕ) where
  free_clone-SameBufs :
      (s b t : PageBufs) (p : ℕ) (rest : List ℕ)
      → SameBufs s b
      → b.clones ≡ p ∷ rest
      → t.clones ≡ rest
      → (t.buf p).ref_count ≡ clone_buf_mark
      → ((q : ℕ) → q ≢ p → t.buf q ≡ b.buf q)
      → t.list ≡ b.list
      → t.groups ≡ b.groups
      → t.pg_data_size ≡ b.pg_data_size
      → SameBufs s (buf_free_clone t (some p)).1
  free_clone-SameBufs s b t p rest v have left mark others list groups limit =
      let (kept, l, c, g, m) = buf_free_clone-back b t p rest have left mark others in
      record {
        groups = g ∙ groups ∙ v.groups;
        clones = c ∙ v.clones;
        limit = m ∙ limit ∙ v.limit;
        buf = λ q a. kept q (subst (λ xs. Absent q xs) (sym v.clones ∙ have) a).0 ∙ v.buf q a;
        list = λ q h. v.list q (subst (λ xs. Member q xs) (l ∙ list) h);
      }

  copy_clone-RoundDone :
      (w0 : Work D) (i : ℕ) (c : Copying D) (page p : ℕ) (rest : List ℕ)
      → IsFlash calls held
      → IsReady calls held o pages dirty w0
      → SameBufs w0.bufs c.work.bufs
      → SameBlocks calls held o pages dirty w0 c.work
      → find_buf_in_dirty_list w0.bufs.buf i dirty ≡ none
      → page < pages
      → tag_is_good (get_tag w0.old page) ≡ true
      → (get_tag w0.old page).page_id ≡ i
      → c.work.bufs.clones ≡ p ∷ rest
      → let b = record (c.work.bufs.buf p) { ref_count = clone_buf_mark } in
        let taken = record c.work.bufs { buf = store c.work.bufs.buf p b; clones = rest } in
        RoundDone calls held o pages dirty w0 i c.work.dev
          (copy_clone calls o i (with_bufs c taken) page p)
  unfolding copy_clone with_bufs clone_of
  copy_clone-RoundDone w0 i c page p rest laws v s f none_dirty lt good id have =
      let w = c.work in
      let b0 = record (w.bufs.buf p) { ref_count = clone_buf_mark } in
      let taken : PageBufs = record w.bufs { buf = store w.bufs.buf p b0; clones = rest } in
      let b = taken.buf p in
      let now = store_self w.bufs.buf p b0 in
      let marked = ap (λ (x : Buf). x.ref_count) now in
      let r = calls.read_page w.dev w.old.block page b.content in
      let put = bad_block_add_by_flash_result w.pending w.old.block (r.0) in
      let full_buf = clone_of o b (put.0) (r.1) (get_tag w.old page) in
      let full : PageBufs = record taken { buf = store taken.buf p full_buf } in
      let ready : Work D = record w { bufs = full; pending = put.1 } in
      let start : Copying D = record c { work = ready } in
      let here : SameBlocks calls held o pages dirty w0 ready = record {
        old = f.old;
        fresh = f.fresh;
        read = f.read;
      } in
      let (open_end, e, f', others, written) =
        copy_buf-now calls held o pages dirty w0 i start p laws v here in
      let at = store_self taken.buf p full_buf in
      let lost_buf = record b { content = r.1; mark = empty } in
      let lost : PageBufs = record taken { buf = store taken.buf p lost_buf } in
      elim (Bool-cases (is_none (put.0) && flash_have_err (r.0))) [
        | inl bad ↦ rw bad (
          free_clone-SameBufs w0.bufs w.bufs lost p rest s have refl
              (ap (λ (x : Buf). x.ref_count) (store_self taken.buf p lost_buf) ∙ marked)
              (λ q ne. store_ne taken.buf p lost_buf q ne ∙ store_ne w.bufs.buf p b0 q ne) refl refl
              refl,
          record { old = f.old; fresh = f.fresh; read = f.read },
          λ j ne. refl,
          λ on ok. cc,
          λ yes. cc,
        )
        | inr fine ↦
            let cut_buf = record (full.buf p) {
              data_len = clip full.pg_data_size (full.buf p).data_len;
            } in
            let cut : PageBufs = record full { buf = store full.buf p cut_buf } in
            let cut_marked : (cut.buf p).ref_count ≡ clone_buf_mark =
              ap (λ (x : Buf). x.ref_count) (store_self full.buf p cut_buf)
              ∙ ap (λ (x : Buf). x.ref_count) at
              ∙ marked in
            let freed =
              free_clone-SameBufs w0.bufs w.bufs cut p rest s have refl cut_marked
                (λ q ne.
                  store_ne full.buf p cut_buf q ne
                  ∙ store_ne taken.buf p full_buf q ne
                  ∙ store_ne w.bufs.buf p b0 q ne)
                refl refl refl in
            let content_read =
              ap (λ (x : Buf). x.content) at
              ∙ ap (λ k. (calls.read_page w.dev k.block page b.content).1) f.old
              ∙ ap (λ x. x.1) (f.read page b.content) in
            let length_read =
              ap (λ (x : Buf). clip taken.pg_data_size x.data_len) at
              ∙ ap (λ m. clip m (get_tag w.old page).data_len) s.limit
              ∙ ap (λ k. clip w0.bufs.pg_data_size (get_tag k page).data_len) f.old in
            rw fine (
              subst (λ x. SameBufs w0.bufs (buf_free_clone x (some p)).1) (sym e) freed,
              record { old = f'.old; fresh = f'.fresh; read = f'.read },
              others,
              λ on ok. (
                _,
                _,
                inr (none_dirty, inr (page, b.content, lt, good, id, content_read, length_read)),
                written ok,
              ),
              λ yes. let no = sym open_end ∙ yes in cc,
            )
      ]

  pub copy_by_clone-RoundDone :
      (w0 : Work D) (i : ℕ) (c : Copying D) (page : ℕ) (clones : List ℕ)
      → IsFlash calls held
      → IsReady calls held o pages dirty w0
      → SameBufs w0.bufs c.work.bufs
      → SameBlocks calls held o pages dirty w0 c.work
      → find_buf_in_dirty_list w0.bufs.buf i dirty ≡ none
      → page < pages
      → tag_is_good (get_tag w0.old page) ≡ true
      → (get_tag w0.old page).page_id ≡ i
      → c.work.bufs.clones ≡ clones
      → RoundDone calls held o pages dirty w0 i c.work.dev
          (copy_by_clone calls o i c page (clone_into c.work.bufs none clones))
  unfolding copy_by_clone clone_into with_bufs
  copy_by_clone-RoundDone w0 i c page [] laws v s f none_dirty lt good id have = (
    s,
    record { old = f.old; fresh = f.fresh; read = f.read },
    λ j ne. refl,
    λ on ok. cc,
    λ yes. cc,
  )
  copy_by_clone-RoundDone w0 i c page (p ∷ rest) laws v s f none_dirty lt good id have =
      copy_clone-RoundDone w0 i c page p rest laws v s f none_dirty lt good id have
