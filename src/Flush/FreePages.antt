-- ===== src/Flush/FreePages.antt =====
-- src/uffs_buf.c: what the flush of a group to the free pages of its block gives.
use esp_uffs.Prelude.{
  ℕ, ◌%◌, arith, ◌<◌, ◌≤◌, ◌≡◌, ◌≢◌, refl, ◌∙◌, List, [], ◌∷◌, Bool, true, false, ◌⊎◌, inl, inr,
}
use esp_uffs.Pool.Chain.{Member, Absent}
use esp_uffs.BadBlock.{
  FlashResult, no_err, ecc_ok, not_sealed, io_err, ecc_fail, bad_blk, crc_err, unknown_err,
}
use esp_uffs.BlockInfo.{PageSpare, BlockInfo, Tags, all_pages}
use esp_uffs.Public.{Loaded, get_tag}
use esp_uffs.Public.Spares.{spare_at}
use esp_uffs.Public.Free.{is_free}
use esp_uffs.Public.Again.{IsRead}
use esp_uffs.Buf.{valid, Buf}
use esp_uffs.DirtyBuf.{group_at}
use esp_uffs.DirtyBuf.Marks.{IsMarked}
use esp_uffs.DirtyBuf.Least.{AllFrom}
use esp_uffs.Flush.{FlashCalls, Work, is_good_write, put_tag}
use esp_uffs.Flush.Laws.{Page, IsFlash, FitsTag, page_data}
use esp_uffs.Flush.Free.{free_tag, write_free, after_write}
use esp_uffs.Flush.Room.{stamp_of, get_block_time_stamp-again, spare_at-put_tag, put_tag-IsRead}

free_tag-FitsTag : (stamp : ℕ) (b : Buf) (tag : Tags) → FitsTag (free_tag stamp b tag)
unfolding free_tag
free_tag-FitsTag stamp b tag = record {
  kind = omega arith;
  block_ts = omega arith;
  data_len = omega arith;
  serial = omega arith;
  parent = omega arith;
  page_id = omega arith;
}

-- What the flash should hold of a buffer, each field cut to its bits in the tag.
abbrev pub page_with : ℕ → ℕ → Buf → Page
page_with size time_stamp b = record {
  content = page_data size b.content;
  kind = b.kind % 4;
  parent = b.parent % 1024;
  serial = b.serial % 16384;
  page_id = b.page_id % 64;
  data_len = b.data_len % 4096;
  block_ts = time_stamp % 4;
}

pub AllFrom-Member :
    (buf : ℕ → Buf) (n p : ℕ) (ps : List ℕ) → AllFrom buf n ps → Member p ps → n ≤ (buf p).page_id
AllFrom-Member buf n p [] all m = elim m [ ]
AllFrom-Member buf n p (q ∷ rest) all (inl e) = rw e all.0
AllFrom-Member buf n p (q ∷ rest) all (inr m) = AllFrom-Member buf n p rest all.1 m

module _ {D : Type 0} (calls : FlashCalls D) (held : D → ℕ → ℕ → Page)
    (recover : Work D → Bool × Work D) (parent serial : ℕ → ℕ) (pages slot : ℕ) where
  abbrev pub dirty_of : Work D → List ℕ
  dirty_of w = (group_at slot w.bufs.groups).dirty

  -- Every write succeeds.
  abbrev pub AllGood : Type 0
  AllGood =
      (d : D) (block page : ℕ) (b : Buf) (tag : esp_uffs.BlockInfo.Tags)
      → is_good_write (calls.write_page d block page b tag).0 ≡ true

  -- The flush can go on: good dirty lists, all tags of the block are read.
  pub record CanFlush (w : Work D) : Type 0 where
    pub marked : IsMarked w.bufs parent serial
    pub all_read : IsRead pages w.old

  -- A dirty buffer was written to the free page `k`.
  abbrev pub PlacedAt : Work D → ℕ → Work D → ℕ → ℕ → Type 0
  PlacedAt w page r k p =
      (page ≤ k)
      × (k < pages)
      × (is_free w.old k ≡ true)
      × (held r.dev w.old.block k ≡ page_with calls.pg_data_size (stamp_of w.old) (w.bufs.buf p))
      × (r.bufs.buf p ≡ record (w.bufs.buf p) { mark = valid })

  -- Each dirty buffer has got a free page of its own, in the order of the page ids.
  abbrev pub Placed : Work D → ℕ → Work D → (ℕ → ℕ) → Type 0
  Placed w page r place =
      ((p : ℕ) → Member p (dirty_of w) → PlacedAt w page r (place p) p)
      × ((p q : ℕ)
          → Member p (dirty_of w)
          → Member q (dirty_of w)
          → (w.bufs.buf p).page_id < (w.bufs.buf q).page_id
          → place p < place q)

  -- What stays, and that the list is empty.
  abbrev pub FlushDone : Work D → ℕ → Work D → Type 0
  FlushDone w page r =
      (dirty_of r ≡ [])
      × ((j : ℕ)
          → (j < page) ⊎ (is_free w.old j ≡ false)
          → held r.dev w.old.block j ≡ held w.dev w.old.block j)
      × ((q : ℕ) → Absent q (dirty_of w) → r.bufs.buf q ≡ w.bufs.buf q)
      × ((j : ℕ) → j ≢ slot → group_at j r.bufs.groups ≡ group_at j w.bufs.groups)
      × (place : ℕ → ℕ) × Placed w page r place

  pub after_write_good :
      (ret : FlashResult) (w : Work D) (later : Bool × Work D)
      → is_good_write ret ≡ true
      → after_write calls recover ret w later ≡ later
  unfolding is_good_write after_write
  after_write_good no_err w later good = refl
  after_write_good ecc_ok w later good = cc
  after_write_good not_sealed w later good = refl
  after_write_good io_err w later good = cc
  after_write_good ecc_fail w later good = cc
  after_write_good bad_blk w later good = cc
  after_write_good crc_err w later good = cc
  after_write_good unknown_err w later good = cc

  -- One write: the flash and the cache after it.
  abbrev Written : Work D → ℕ → ℕ → FlashResult × Work D → Type 0
  Written w k p r =
      (is_good_write (r.0) ≡ true)
      × (r.1.bufs ≡ w.bufs)
      × (r.1.old.block ≡ w.old.block)
      × IsRead pages (r.1.old)
      × ((j : ℕ) → j ≢ k → spare_at (r.1.old) j ≡ spare_at w.old j)
      × (held (r.1.dev) w.old.block k
          ≡ page_with calls.pg_data_size (stamp_of w.old) (w.bufs.buf p))
      × ((j : ℕ) → j ≢ k → held (r.1.dev) w.old.block j ≡ held w.dev w.old.block j)

  pub write_free-Written :
      (w : Work D) (k p : ℕ)
      → IsFlash calls held
      → AllGood
      → IsRead pages w.old
      → 0 < pages
      → Written w k p (write_free calls recover w k p)
  write_free-Written w k p laws good v some_page =
      let l : Loaded = record { bc = w.old; pending = w.pending } in
      let stamp = get_block_time_stamp-again (calls.read_tag w.dev) l (v 0 some_page) in
      let tag = free_tag (stamp_of w.old) (w.bufs.buf p) (get_tag w.old k) in
      let write = calls.write_page w.dev w.old.block k (w.bufs.buf p) tag in
      unfold write_free in
      rw stamp (
        good w.dev w.old.block k (w.bufs.buf p) tag,
        refl,
        (unfold put_tag in refl),
        put_tag-IsRead pages w.old k (write.1) v,
        (λ j ne. spare_at-put_tag w.old k (write.1) j ne),
        laws.written w.dev w.old.block k (w.bufs.buf p) tag
              (free_tag-FitsTag (stamp_of w.old) (w.bufs.buf p) (get_tag w.old k))
              (good w.dev w.old.block k (w.bufs.buf p) tag)
            ∙ (unfold free_tag in refl),
        (λ j ne. laws.other_page w.dev w.old.block k (w.bufs.buf p) tag j ne),
      )
