-- ===== src/Flush/FreeFlush.antt =====
-- src/uffs_buf.c: the flush of a group to the free pages of its block ends with an empty list.
use esp_uffs.Prelude.{
  ℕ, zero, suc, ◌+◌, ◌-◌, ◌<◌, ◌≤◌, ◌≡◌, refl, sym, ◌∙◌, ap, subst, List, [], ◌∷◌, Bool, true,
  false, ◌==◌, leb, ◌||◌, ◌⊎◌, inl, inr, arith, length,
}
use esp_uffs.Pool.Chain.{Member, Absent}
use esp_uffs.BlockInfo.{all_pages}
use esp_uffs.Public.{Loaded}
use esp_uffs.Public.Free.{is_free, free_among}
use esp_uffs.DirtyBuf.{no_dirty, group_at, find_minimum_page_id}
use esp_uffs.DirtyBuf.Marks.{IsMarked, length-remove, Distinct-remove}
use esp_uffs.DirtyBuf.Least.{find_minimum_page_id-AllFrom}
use esp_uffs.Flush.{FlashCalls, Work}
use esp_uffs.Flush.Laws.{Page, IsFlash}
use esp_uffs.Flush.Free.{
  erased_loop, release, write_free, is_flushed, flush_free_loop, flush_with_free_pages,
}
use esp_uffs.Flush.Room.{
  room, room-free_among, room_same, erased_loop-FoundFree, Released, release-Released,
}
use esp_uffs.Flush.FreePages.{
  AllFrom-Member, dirty_of, AllGood, CanFlush, FlushDone, write_free-Written,
}
use esp_uffs.Flush.FreeRound.{Round, FlushDone-Round, flush_free_loop-next}

list_cases : (xs : List ℕ) → (xs ≡ []) ⊎ ((x : ℕ) × (rest : List ℕ) × (xs ≡ x ∷ rest))
list_cases [] = inl refl
list_cases (x ∷ rest) = inr (x, rest, refl)

module _ {D : Type 0} (calls : FlashCalls D) (held : D → ℕ → ℕ → Page)
    (recover : Work D → Bool × Work D) (parent serial : ℕ → ℕ) (pages slot : ℕ) where
  abbrev list_of : Work D → List ℕ
  list_of w = dirty_of calls held recover parent serial pages slot w

  abbrev Flushed : Work D → ℕ → Bool × Work D → Type 0
  Flushed w page r =
      (r.0 ≡ true) × FlushDone calls held recover parent serial pages slot w page (r.1)

  empty_now :
      (w : Work D) (page : ℕ)
      → IsMarked w.bufs parent serial
      → list_of w ≡ []
      → Flushed w page (is_flushed calls recover slot w, w)
  empty_now w page v e =
      let zero_count : (group_at slot w.bufs.groups).count ≡ 0 = v.counted slot ∙ ap length e in
      let nobody : (p : ℕ) → Member p (list_of w) → ⊥ =
        λ p m. let n : Member p [] = subst (λ ps. Member p ps) e m in n in
      (
        (unfold is_flushed no_dirty in rw (e, zero_count) refl),
        (
          e,
          (λ j c. refl),
          (λ q out. refl),
          (λ j ne. refl),
          (λ p. 0),
          ((λ p m. elim (nobody p m) [ ]), (λ p q m. elim (nobody p m) [ ])),
        ),
      )

  flush_free_loop-empty :
      (fuel page : ℕ) (w : Work D)
      → IsMarked w.bufs parent serial
      → list_of w ≡ []
      → Flushed w page (flush_free_loop calls recover pages slot fuel page w)
  flush_free_loop-empty zero page w v e = unfold flush_free_loop in empty_now w page v e
  flush_free_loop-empty (suc fuel) page w v e =
      let zero_count : (group_at slot w.bufs.groups).count ≡ 0 = v.counted slot ∙ ap length e in
      let stop : leb pages page || ((group_at slot w.bufs.groups).count == 0) ≡ true =
        ground arith in
      let same : flush_free_loop calls recover pages slot (suc fuel) page w
          ≡ (is_flushed calls recover slot w, w) =
        unfold flush_free_loop in rw stop refl in
      subst (λ r. Flushed w page r) (sym same) (empty_now w page v e)

  abbrev next_work : Work D → ℕ → ℕ → Work D
  next_work w k p =
      let x = (write_free calls recover w k p).1 in record x { bufs = release x.bufs p }

  next-Round :
      (w : Work D) (k p : ℕ)
      → IsFlash calls held
      → AllGood calls held recover parent serial pages slot
      → CanFlush calls held recover parent serial pages slot w
      → 0 < pages
      → Member p (list_of w)
      → Round calls held recover parent serial pages slot w k p (next_work w k p)
        × CanFlush calls held recover parent serial pages slot (next_work w k p)
  next-Round w k p laws good v some_page m =
      let (ok, bufs, block, read, spares, here, others) =
        write_free-Written calls held recover parent serial pages slot w k p laws good v.all_read
          some_page in
      let x = (write_free calls recover w k p).1 in
      let rel : Released w.bufs parent serial slot p (release x.bufs p) =
        subst (λ b. Released w.bufs parent serial slot p (release b p)) (sym bufs)
          (release-Released w.bufs parent serial slot p v.marked m) in
      (
        record {
          released = rel;
          gone =
              subst (λ ps. Absent p ps) (sym (rel.1))
                (Distinct-remove p _ (v.marked.distinct slot)).1;
          block = block;
          spares = spares;
          here = here;
          others = others;
        },
        record { marked = rel.0; all_read = read },
      )

  -- A round with a dirty buffer left and enough room.
  abbrev NextRound : ℕ → ℕ → Work D → Type 0
  NextRound fuel page w =
      (k p left : ℕ) × (flush_free_loop calls recover pages slot (suc fuel) page w
        ≡ flush_free_loop calls recover pages slot fuel (k + 1) (next_work w k p))
      × (page ≤ k)
      × (k + 1 + left ≡ pages)
      × (is_free w.old k ≡ true)
      × Member p (list_of w)
      × ((q : ℕ) → Member q (list_of w) → (w.bufs.buf p).page_id ≤ (w.bufs.buf q).page_id)
      × Round calls held recover parent serial pages slot w k p (next_work w k p)
      × CanFlush calls held recover parent serial pages slot (next_work w k p)
      × (length (list_of (next_work w k p)) ≤ room (next_work w k p).old (k + 1) left)

  next_round :
      (fuel page rounds p0 : ℕ) (rest : List ℕ) (w : Work D)
      → IsFlash calls held
      → AllGood calls held recover parent serial pages slot
      → CanFlush calls held recover parent serial pages slot w
      → pages ≤ all_pages
      → 0 < page
      → page + rounds ≡ pages
      → length (list_of w) ≤ room w.old page rounds
      → list_of w ≡ p0 ∷ rest
      → NextRound fuel page w
  next_round fuel page rounds p0 rest w laws good v small pos fits has_room e =
      let count : (group_at slot w.bufs.groups).count ≡ suc (length rest) =
        v.marked.counted slot ∙ ap length e in
      let one_more : length (list_of w) ≡ suc (length rest) = ap length e in
      let l : Loaded = record { bc = w.old; pending = w.pending } in
      let (same, le, free, (left, ends, less)) =
        erased_loop-FoundFree (calls.read_tag w.dev) pages rounds page l v.all_read small fits
          (omega arith) in
      let k = (erased_loop (calls.read_tag w.dev) rounds page l).0 in
      let (p, found, at, all) = find_minimum_page_id-AllFrom w.bufs.buf p0 rest in
      let m : Member p (list_of w) = subst (λ ps. Member p ps) (sym e) at in
      let (round, v') = next-Round w k p laws good v (omega arith) m in
      let (ok, bufs, block, read, spares, here, others) =
        write_free-Written calls held recover parent serial pages slot w k p laws good v.all_read
          (omega arith) in
      let on : leb pages page || ((group_at slot w.bufs.groups).count == 0) ≡ false =
        (let lt : page < pages = omega arith in
          let a : leb pages page ≡ false = ground arith in
          let b : ((group_at slot w.bufs.groups).count == 0) ≡ false = ground arith in
          rw (a, b) refl) in
      let inside : leb pages k ≡ false = ground arith in
      let rounds_left : pages - page ≡ rounds = omega arith in
      (
        k,
        p,
        left,
        flush_free_loop-next calls held recover parent serial pages slot fuel page k p w on
            (ap (λ n. erased_loop (calls.read_tag w.dev) n page l) rounds_left
              ∙ ap (λ s. (k, s)) same)
            inside (ap (λ ps. find_minimum_page_id w.bufs.buf ps) e ∙ found) ok,
        le,
        omega arith,
        free,
        m,
        (λ q n. AllFrom-Member w.bufs.buf _ q (p0 ∷ rest) all (subst (λ ps. Member q ps) e n)),
        round,
        v',
        (let fewer = length-remove p (list_of w) m in
            let now = ap length (round.released.1) in
            let same_room =
              room_same w.old (next_work w k p).old (k + 1) left (λ j le. spares j (omega arith)) in
            omega arith),
      )

  -- With a page for each buffer, every round writes one, until none is left.
  pub flush_free_loop-FlushDone :
      (fuel page rounds : ℕ) (w : Work D)
      → IsFlash calls held
      → AllGood calls held recover parent serial pages slot
      → CanFlush calls held recover parent serial pages slot w
      → pages ≤ all_pages
      → 0 < page
      → page + rounds ≡ pages
      → rounds ≤ fuel
      → length (list_of w) ≤ room w.old page rounds
      → Flushed w page (flush_free_loop calls recover pages slot fuel page w)
  flush_free_loop-FlushDone zero page rounds w laws good v small pos fits enough has_room =
      let none_left : rounds ≡ 0 = omega arith in
      let no_room : room w.old page rounds ≡ 0 =
        ap (λ n. room w.old page n) none_left ∙ (unfold room in refl) in
      elim (list_cases (list_of w)) [
        | inl e ↦ flush_free_loop-empty zero page w v.marked e
        | inr (p, rest, e) ↦
            let n : length (list_of w) ≡ suc (length rest) = ap length e in absurd (omega arith)
      ]
  flush_free_loop-FlushDone (suc fuel) page rounds w laws good v small pos fits enough has_room =
      elim (list_cases (list_of w)) [
        | inl e ↦ flush_free_loop-empty (suc fuel) page w v.marked e
        | inr (p0, rest, e) ↦
            let (k, p, left, same, le, ends, free, m, least, round, v', room') =
              next_round fuel page rounds p0 rest w laws good v small pos fits has_room e in
            let (ret, done) =
              flush_free_loop-FlushDone fuel (k + 1) left (next_work w k p) laws good v' small
                (omega arith) ends (omega arith) room' in
            subst (λ r. Flushed w page r) (sym same)
              (
                ret,
                FlushDone-Round calls held recover parent serial pages slot w (next_work w k p)
                    (flush_free_loop calls recover pages slot fuel (k + 1) (next_work w k p)).1 page
                    k p pos le (omega arith) free m least round done,
              )
      ]

  -- On a flash whose writes all succeed and, under a tag that fits its bits, put the data bytes of
  -- the buffer and the tag into that page and no other, with good dirty lists, every tag of the
  -- block read, and at least as many free pages behind page 0 of the block (of 1 to 65535 pages) as
  -- dirty buffers in the group, uffs_BufFlush_Exist_With_Enough_FreePage succeeds and leaves the
  -- dirty list of the group empty: each of its buffers was written, its data bytes with its owner,
  -- page id and length and the time stamp of the block, each cut to its bits in a tag, to a free
  -- page of the block, buffers with lower page ids to lower pages, and is valid and otherwise as
  -- before; page 0 and the pages that were not free, the other buffers and the other groups are as
  -- before.
  pub flush_with_free_pages-FlushDone :
      (w : Work D)
      → IsFlash calls held
      → AllGood calls held recover parent serial pages slot
      → CanFlush calls held recover parent serial pages slot w
      → 0 < pages
      → pages ≤ all_pages
      → length (list_of w) ≤ free_among w.old 1 (pages - 1)
      → let (ret, r) = flush_with_free_pages calls recover pages slot w in
        (ret ≡ true) × FlushDone calls held recover parent serial pages slot w 1 r
  unfolding flush_with_free_pages
  flush_with_free_pages-FlushDone w laws good v some_page small has_room =
      let same = room-free_among w.old 1 (pages - 1) in
      flush_free_loop-FlushDone pages 1 (pages - 1) w laws good v small (omega arith) (omega arith)
        (omega arith) (omega arith)
