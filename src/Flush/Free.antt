-- ===== src/Flush/Free.antt =====
-- src/uffs_buf.c: writing a group of dirty buffers to the free pages of its block
-- (uffs_BufFlush_Exist_With_Enough_FreePage). A full flush of the group is a parameter, `recover`: it is
-- called when a write finds the block bad.
use esp_uffs.Prelude.{
  ℕ, zero, suc, ◌+◌, ◌-◌, ◌%◌, Bool, true, false, ◌&&◌, ◌||◌, Option, none, some, leb, ◌==◌,
  if◌then◌else◌,
}
use esp_uffs.BadBlock.{
  FlashResult, no_err, ecc_ok, not_sealed, io_err, ecc_fail, bad_blk, crc_err, unknown_err,
}
use esp_uffs.BlockInfo.{Tags, ReadTag}
use esp_uffs.Public.{Loaded, get_tag}
use esp_uffs.Public.Erased.{is_page_erased, get_block_time_stamp}
use esp_uffs.Buf.{valid, Buf, PageBufs, store, move_node_to_head}
use esp_uffs.DirtyBuf.{no_dirty, group_at, find_minimum_page_id, break_from_dirty}
use esp_uffs.Flush.{FlashCalls, Work, put_tag}

-- The search for an erased page from `page` on; `rounds` pages are left.
unfoldable pub erased_loop : ReadTag → ℕ → ℕ → Loaded → ℕ × Loaded
erased_loop read_tag zero page s = (page, s)
erased_loop read_tag (suc rounds) page s =
    let r = is_page_erased read_tag page s in
    let later = erased_loop read_tag rounds (page + 1) (r.1) in if r.0 then (page, r.1) else later

-- The fields of a tag have 2, 12, 2, 10, 14 and 6 bits.
unfoldable pub free_tag : ℕ → Buf → Tags → Tags
free_tag time_stamp b tag = record tag {
  dirty = 0;
  valid = 0;
  block_ts = time_stamp % 4;
  data_len = b.data_len % 4096;
  kind = b.kind % 4;
  parent = b.parent % 1024;
  serial = b.serial % 16384;
  page_id = b.page_id % 64;
  seal_byte = 0;
}

unfoldable pub set_valid : Bool × PageBufs → ℕ → PageBufs
unfolding store move_node_to_head
set_valid (false, s) p = s
set_valid (true, s) p =
    move_node_to_head (record s { buf = store s.buf p (record (s.buf p) { mark = valid }) }) p

unfoldable pub release : PageBufs → ℕ → PageBufs
unfolding set_valid break_from_dirty
release s p = set_valid (break_from_dirty s p) p

module _ {D : Type 0} (calls : FlashCalls D) (recover : Work D → Bool × Work D) where
  unfoldable pub write_free : Work D → ℕ → ℕ → FlashResult × Work D
  unfolding free_tag put_tag get_block_time_stamp
  write_free w page p =
      let (time_stamp, l) =
        get_block_time_stamp (calls.read_tag w.dev) (record { bc = w.old; pending = w.pending }) in
      let tag = free_tag time_stamp (w.bufs.buf p) (get_tag l.bc page) in
      let (ret, done, dev) = calls.write_page w.dev l.bc.block page (w.bufs.buf p) tag in
      (ret, record w { old = put_tag l.bc page done; pending = l.pending; dev = dev })

  -- What follows a write; `later` is the rest of the loop.
  unfoldable pub after_write : FlashResult → Work D → Bool × Work D → Bool × Work D
  after_write io_err w later = (false, w)
  after_write bad_blk w later = recover w
  after_write no_err w later = later
  after_write ecc_ok w later = later
  after_write not_sealed w later = later
  after_write ecc_fail w later = later
  after_write crc_err w later = later
  after_write unknown_err w later = later

  unfoldable pub is_flushed : ℕ → Work D → Bool
  unfolding group_at no_dirty
  is_flushed slot w = let g = group_at slot w.bufs.groups in no_dirty g.dirty && (g.count == 0)

  -- The dirty page with the lowest page id is written to the free page `page`; `later` is the rest of
  -- the loop.
  unfoldable pub flush_least : (Work D → Bool × Work D) → Work D → ℕ → Option ℕ → Bool × Work D
  unfolding release write_free after_write
  flush_least later w page none = (false, w)
  flush_least later w page (some p) =
      let (ret, written) = write_free w page p in
      after_write ret written (later (record written { bufs = release written.bufs p }))

  -- The loop from page `page` on; it goes on at most `fuel` times.
  unfoldable pub flush_free_loop : ℕ → ℕ → ℕ → ℕ → Work D → Bool × Work D
  unfolding erased_loop flush_least is_flushed
  flush_free_loop pages_per_block slot zero page w = (is_flushed slot w, w)
  flush_free_loop pages_per_block slot (suc fuel) page w =
      let r =
        erased_loop (calls.read_tag w.dev) (pages_per_block - page) page
          (record { bc = w.old; pending = w.pending }) in
      let found = record w { old = r.1.bc; pending = r.1.pending } in
      let g = group_at slot w.bufs.groups in
      let later = λ (x : Work D). flush_free_loop pages_per_block slot fuel (r.0 + 1) x in
      if leb pages_per_block page || (g.count == 0)
      then (is_flushed slot w, w)
      else if leb pages_per_block (r.0)
      then (is_flushed slot found, found)
      else flush_least later found (r.0) (find_minimum_page_id w.bufs.buf g.dirty)

  -- Page 0 is never free.
  unfoldable pub flush_with_free_pages : ℕ → ℕ → Work D → Bool × Work D
  unfolding flush_free_loop
  flush_with_free_pages pages_per_block slot w =
      flush_free_loop pages_per_block slot pages_per_block 1 w
