-- ===== src/Flush/Cached.antt =====
-- src/uffs_buf.c: a round of the copy that writes a cached buffer.
use esp_uffs.Prelude.{
  ℕ, ◌<◌, ◌≤◌, ◌≡◌, ◌≢◌, refl, sym, ◌∙◌, ap, subst, List, true, none, some, inl, inr,
}
use esp_uffs.Pool.Chain.{Member}
use esp_uffs.Public.{get_tag}
use esp_uffs.Buf.{Buf, store, hold, buf_put, matches}
use esp_uffs.Buf.Memory.{store_self}
use esp_uffs.DirtyBuf.{find_buf_in_dirty_list}
use esp_uffs.Flush.{
  FlashCalls, Work, Owner, Copying, clip, fresh_tag, is_good_write, copy_buf, with_bufs,
  copy_cached,
}
use esp_uffs.Flush.Frame.{hold-put, clip_small}
use esp_uffs.Flush.Laws.{
  IsFlash, page_of, Page, RoundDone, SameBlocks, SameBufs, write_fresh-SameBlocks, IsReady,
  fresh_tag-FitsTag, page_under,
}

module _ {D : Type 0} (calls : FlashCalls D) (held : D → ℕ → ℕ → Page) (o : Owner) (pages : ℕ)
    (dirty : List ℕ) where
  pub copy_buf-now :
      (w0 : Work D) (i : ℕ) (c : Copying D) (p : ℕ)
      → IsFlash calls held
      → IsReady calls held o pages dirty w0
      → SameBlocks calls held o pages dirty w0 c.work
      → let r = copy_buf calls o i c p in
        let b = c.work.bufs.buf p in
        let data_len = clip c.work.bufs.pg_data_size b.data_len in
        (r.ended ≡ none)
        × (r.work.bufs ≡ record c.work.bufs {
          buf = store c.work.bufs.buf p (record b { data_len = data_len });
        })
        × SameBlocks calls held o pages dirty w0 r.work
        × ((j : ℕ) → j ≢ i → held r.work.dev w0.fresh.block j ≡ held c.work.dev w0.fresh.block j)
        × (is_good_write r.op ≡ true
            → held r.work.dev w0.fresh.block i
              ≡ page_under o calls.pg_data_size i b.content data_len)
  unfolding copy_buf fresh_tag
  copy_buf-now w0 i c p laws v f =
      let w = c.work in
      let b = w.bufs.buf p in
      let cut = record b { data_len = clip w.bufs.pg_data_size b.data_len } in
      let tag = fresh_tag o i cut.data_len (get_tag w.fresh i) in
      let ready : Work D = record w { bufs = record w.bufs { buf = store w.bufs.buf p cut } } in
      let here : SameBlocks calls held o pages dirty w0 ready = record {
        old = f.old;
        fresh = f.fresh;
        read = f.read;
      } in
      let (f', others, now) =
        write_fresh-SameBlocks calls held o pages dirty w0 ready i p tag laws v here
          (fresh_tag-FitsTag o i cut.data_len (get_tag w.fresh i)) in
      let at = store_self w.bufs.buf p cut in
      (
        refl,
        refl,
        f',
        others,
        λ good. now good ∙ ap (λ (x : Buf). page_of calls.pg_data_size x.content tag) at,
      )

  pub copy_cached-RoundDone :
      (w0 : Work D) (i : ℕ) (c : Copying D) (page p : ℕ)
      → IsFlash calls held
      → IsReady calls held o pages dirty w0
      → SameBufs w0.bufs c.work.bufs
      → SameBlocks calls held o pages dirty w0 c.work
      → find_buf_in_dirty_list w0.bufs.buf i dirty ≡ none
      → Member p c.work.bufs.list
      → matches o.parent o.serial i (c.work.bufs.buf p) ≡ true
      → RoundDone calls held o pages dirty w0 i c.work.dev
          (copy_cached calls o i c page (hold c.work.bufs (some p)))
  unfolding copy_cached with_bufs hold
  copy_cached-RoundDone w0 i c page p laws v s f none_dirty m t =
      let bufs = c.work.bufs in
      let held_bufs = (hold bufs (some p)).1 in
      let c' : Copying D = with_bufs c held_bufs in
      let here : SameBlocks calls held o pages dirty w0 c'.work = record {
        old = f.old;
        fresh = f.fresh;
        read = f.read;
      } in
      let (open_end, e, f', others, now) = copy_buf-now w0 i c' p laws v here in
      let absent = v.listed p (s.list p m) in
      let same = s.buf p absent in
      let few = subst (λ (b : Buf). b.ref_count < 0xfffe) (sym same) (v.few p absent) in
      let small : (bufs.buf p).data_len ≤ bufs.pg_data_size =
        subst (λ (b : Buf). b.data_len ≤ bufs.pg_data_size) (sym same)
          (subst (λ n. (w0.bufs.buf p).data_len ≤ n) (sym s.limit) (v.fits p absent)) in
      let (b, kept, list, clones, groups, limit) = hold-put bufs p m few small in
      let back : SameBufs w0.bufs (buf_put _ (some p)).1 = record {
        groups = groups ∙ s.groups;
        clones = clones ∙ s.clones;
        limit = limit ∙ s.limit;
        buf = λ q a. kept q ∙ s.buf q a;
        list = λ q l. s.list q (list q l);
      } in
      let content_kept = ap (λ (x : Buf). x.content) b ∙ ap (λ (x : Buf). x.content) same in
      let length_kept =
        ap (λ (x : Buf). clip bufs.pg_data_size x.data_len) b
        ∙ clip_small bufs.pg_data_size _ small
        ∙ ap (λ (x : Buf). x.data_len) same in
      (
        subst (λ x. SameBufs w0.bufs (buf_put x (some p)).1) (sym e) back,
        record { old = f'.old; fresh = f'.fresh; read = f'.read },
        others,
        λ on good. (
          _,
          _,
          inr (
            none_dirty,
            inl (
              p,
              s.list p m,
              ap (matches o.parent o.serial i) (sym same) ∙ t,
              content_kept,
              length_kept,
            ),
          ),
          now good,
        ),
        λ yes. let no = sym open_end ∙ yes in cc,
      )
