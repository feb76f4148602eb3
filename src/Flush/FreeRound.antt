-- ===== src/Flush/FreeRound.antt =====
-- src/uffs_buf.c: one round of the flush of a group to the free pages of its block.
use esp_uffs.Prelude.{
  ℕ, suc, ◌+◌, ◌-◌, ◌<◌, ◌≤◌, ◌≡◌, ◌≢◌, sym, ◌∙◌, ap, ap₂, subst, Bool, true, false, some, ◌==◌,
  ==_iff, leb, ◌||◌, ◌⊎◌, inl, inr, arith, Bool-cases, if◌then◌else◌,
}
use esp_uffs.Pool.Chain.{Member, Absent}
use esp_uffs.BlockInfo.{PageSpare, BlockInfo}
use esp_uffs.Public.{get_tag, get_first_block_time_stamp}
use esp_uffs.Public.Erased.{tag_is_dirty}
use esp_uffs.Public.Spares.{spare_at, is_free_spare}
use esp_uffs.Public.Free.{is_free}
use esp_uffs.Buf.{valid, Buf}
use esp_uffs.DirtyBuf.{group_at, find_minimum_page_id}
use esp_uffs.DirtyBuf.Marks.{Absent-remove}
use esp_uffs.Flush.{FlashCalls, Work, is_good_write}
use esp_uffs.Flush.Laws.{Page}
use esp_uffs.Flush.Frame.{Member-Absent}
use esp_uffs.Flush.Free.{erased_loop, release, write_free, flush_least, flush_free_loop}
use esp_uffs.Flush.Room.{stamp_of, Member-remove, Released}
use esp_uffs.Flush.FreePages.{page_with, dirty_of, PlacedAt, FlushDone, after_write_good}

module _ {D : Type 0} (calls : FlashCalls D) (held : D → ℕ → ℕ → Page)
    (recover : Work D → Bool × Work D) (parent serial : ℕ → ℕ) (pages slot : ℕ) where
  stamp_same : (a b : BlockInfo) → spare_at a 0 ≡ spare_at b 0 → stamp_of a ≡ stamp_of b
  unfolding stamp_of get_tag spare_at
  stamp_same a b e =
      ap
        (λ (x : PageSpare).
          if tag_is_dirty x.tag then x.tag.block_ts else get_first_block_time_stamp)
        e

  -- What one round leaves for the rest of the loop.
  pub record Round (w : Work D) (k p : ℕ) (w' : Work D) : Type 0 where
    pub released : Released w.bufs parent serial slot p w'.bufs
    pub gone : Absent p (dirty_of calls held recover parent serial pages slot w')
    pub block : w'.old.block ≡ w.old.block
    pub spares : (j : ℕ) → j ≢ k → spare_at w'.old j ≡ spare_at w.old j
    pub here :
        held w'.dev w.old.block k ≡ page_with calls.pg_data_size (stamp_of w.old) (w.bufs.buf p)
    pub others : (j : ℕ) → j ≢ k → held w'.dev w.old.block j ≡ held w.dev w.old.block j

  pub FlushDone-Round :
      (w w' r : Work D) (page k p : ℕ)
      → 0 < page
      → page ≤ k
      → k < pages
      → is_free w.old k ≡ true
      → Member p (dirty_of calls held recover parent serial pages slot w)
      → ((q : ℕ)
          → Member q (dirty_of calls held recover parent serial pages slot w)
          → (w.bufs.buf p).page_id ≤ (w.bufs.buf q).page_id)
      → Round w k p w'
      → FlushDone calls held recover parent serial pages slot w' (k + 1) r
      → FlushDone calls held recover parent serial pages slot w page r
  FlushDone-Round w w' r page k p pos le lt free m least x
        (end, flash, bufs, groups, place, placed) =
      let (all, order) = placed in
      let (v', listed, count, same_groups, now, same_bufs) = x.released in
      let stays : (j : ℕ)
          → (j < k + 1) ⊎ (is_free w.old j ≡ false)
          → j ≢ k
          → held r.dev w.old.block j ≡ held w.dev w.old.block j =
        λ j c ne.
          ap (λ b. held r.dev b j) (sym x.block)
          ∙ flash j (elim c [ inl h ↦ inl h | inr h ↦ inr (ap is_free_spare (x.spares j ne) ∙ h) ])
          ∙ ap (λ b. held w'.dev b j) x.block
          ∙ x.others j ne in
      let to' : (q : ℕ)
          → q ≢ p
          → Member q (dirty_of calls held recover parent serial pages slot w)
          → Member q (dirty_of calls held recover parent serial pages slot w') =
        λ q ne n.
          subst (λ ps. Member q ps) (sym listed)
            (Member-remove p q (dirty_of calls held recover parent serial pages slot w) ne n) in
      let stamp = stamp_same w'.old w.old (x.spares 0 (omega arith)) in
      let first : PlacedAt calls held recover parent serial pages slot w page r k p = (
        le,
        lt,
        free,
        ap (λ b. held r.dev b k) (sym x.block)
            ∙ flash k (inl (omega arith))
            ∙ ap (λ b. held w'.dev b k) x.block
            ∙ x.here,
        bufs p x.gone ∙ now,
      ) in
      let rest : (q : ℕ)
          → q ≢ p
          → Member q (dirty_of calls held recover parent serial pages slot w)
          → PlacedAt calls held recover parent serial pages slot w page r (place q) q =
        λ q ne n.
          let (a, b, c, h, e) = all q (to' q ne n) in
          (
            omega arith,
            b,
            sym (ap is_free_spare (x.spares (place q) (omega arith))) ∙ c,
            ap (λ b. held r.dev b (place q)) (sym x.block)
                ∙ h
                ∙ ap₂ (page_with calls.pg_data_size) stamp (same_bufs q ne),
            e ∙ ap (λ (b : Buf). record b { mark = valid }) (same_bufs q ne),
          ) in
      (
        end,
        (λ j c.
            stays j (elim c [ inl h ↦ inl (omega arith) | inr h ↦ inr h ])
              (elim c [ inl h ↦ (λ e. absurd (omega arith)) | inr h ↦ (λ e. cc) ])),
        (λ q out.
            let ne : q ≢ p = λ e.
              Member-Absent p (dirty_of calls held recover parent serial pages slot w) m (
                subst (λ y. Absent y (dirty_of calls held recover parent serial pages slot w)) e
                  out) in
            bufs q (
              subst (λ ps. Absent q ps) (sym listed)
                (Absent-remove q p (dirty_of calls held recover parent serial pages slot w) out))
            ∙ same_bufs q ne),
        (λ j ne. groups j ne ∙ same_groups j ne),
        (λ q. if q == p then k else place q),
        (
          (λ q n. elim (Bool-cases (q == p)) [
            | inl t ↦ rw t (
                subst (λ y. PlacedAt calls held recover parent serial pages slot w page r k y)
                  (sym ((==_iff q p).0 t)) first)
            | inr f ↦ let ne : q ≢ p = ground arith in rw f (rest q ne n)
          ]),
          (λ a b na nb less. elim (Bool-cases (a == p)) [
            | inl t ↦ elim (Bool-cases (b == p)) [
              | inl u ↦
                  let same =
                    ap (λ y. (w.bufs.buf y).page_id) ((==_iff a p).0 t ∙ sym ((==_iff b p).0 u)) in
                  absurd (omega arith)
              | inr g ↦
                  let ne : b ≢ p = ground arith in
                  let above = (all b (to' b ne nb)).0 in rw (t, g) (omega arith)
            ]
            | inr f ↦ elim (Bool-cases (b == p)) [
              | inl u ↦
                  let same = ap (λ y. (w.bufs.buf y).page_id) ((==_iff b p).0 u) in
                  let above = least a na in absurd (omega arith)
              | inr g ↦
                  let ne : a ≢ p = ground arith in
                  let ne' : b ≢ p = ground arith in
                  rw (f, g)
                    (order a b (to' a ne na) (to' b ne' nb) (
                      let c = ap (λ (x : Buf). x.page_id) (same_bufs a ne) in
                      let d = ap (λ (x : Buf). x.page_id) (same_bufs b ne') in omega arith))
            ]
          ]),
        ),
      )

  pub flush_free_loop-next :
      (fuel page k p : ℕ) (w : Work D)
      → leb pages page || ((group_at slot w.bufs.groups).count == 0) ≡ false
      → erased_loop
          (calls.read_tag w.dev)
          (pages - page)
          page
          (record { bc = w.old; pending = w.pending })
        ≡ (k, record { bc = w.old; pending = w.pending })
      → leb pages k ≡ false
      → find_minimum_page_id w.bufs.buf (dirty_of calls held recover parent serial pages slot w)
        ≡ some p
      → is_good_write (write_free calls recover w k p).0 ≡ true
      → let x = (write_free calls recover w k p).1 in
        flush_free_loop calls recover pages slot (suc fuel) page w
        ≡ flush_free_loop calls recover pages slot fuel
            (k + 1)
            (record x { bufs = release x.bufs p })
  flush_free_loop-next fuel page k p w on found inside least good =
      unfold flush_free_loop in
      rw on (
        rw found (
          rw inside (
            rw least (
              unfold flush_least in
              after_write_good calls held recover parent serial pages slot _ _ _ good))))
