-- ===== src/Flush.antt =====
-- src/uffs_buf.c: copying the pages of a block to an erased block, with the dirty buffers of a group in
-- place of the pages that they change (the loop of uffs_BufFlush_Exist_With_BlockRecover). The flash and
-- what else the device holds is a state of any type, and what the loop calls for it are parameters:
-- uffs_FlashWritePageCombine, uffs_FlashReadPage, and the reads of tags behind uffs_BlockInfoLoad. The
-- buffers that these take and give back on the way are not seen here. The name in a uffs_FileInfo, whose
-- layout is the compiler's, is a parameter, too.
pub mod Frame
pub mod Laws
pub mod Dirty
pub mod Cached
pub mod Cloned
pub mod Found
pub mod Copy
pub mod Free
pub mod Room
pub mod FreePages
pub mod FreeRound
pub mod FreeFlush
mod Examples
use esp_uffs.Prelude.{
  ℕ, zero, suc, ◌+◌, ◌-◌, ◌%◌, List, [], ◌∷◌, Bool, true, false, not, ◌&&◌, ◌||◌, Option, none,
  some, ltb, leb, ◌==◌, if◌then◌else◌, length, set, get_or,
}
use esp_uffs.Crc.{crc16sum}
use esp_uffs.BadBlock.{
  FlashResult, no_err, ecc_ok, not_sealed, io_err, ecc_fail, bad_blk, crc_err, unknown_err,
  PendingList, bad_block_add_by_flash_result,
}
use esp_uffs.BlockInfo.{Tags, BlockInfo, ReadTag, erased_tag, flash_have_err}
use esp_uffs.Flash.{Bytes}
use esp_uffs.FlashPage.{flash_is_bad_block}
use esp_uffs.Public.{
  Loaded, get_tag, invalid_page, find_page_in_block_with_page_id, find_best_page_in_block,
}
use esp_uffs.Public.{type_file}
use esp_uffs.Buf.{
  Mark, empty, valid, Buf, PageBufs, store, buf_get, buf_clone, buf_free_clone, buf_put,
}
use esp_uffs.DirtyBuf.{find_buf_in_dirty_list}

-- A read gives its result and what the buffer then holds; a write its result, the tag that it leaves
-- behind and the device after it. A page has `pg_data_size` bytes of data.
pub record FlashCalls (D : Type 0) : Type 0 where
  pub read_tag : D → ReadTag
  pub read_page : D → ℕ → ℕ → Bytes → FlashResult × Bytes
  pub write_page : D → ℕ → ℕ → Buf → Tags → FlashResult × Tags × D
  pub file_name : Bytes → List ℕ
  pub pg_data_size : ℕ

-- The buffers, the cached tags of the old and of the new block, the pending blocks and the device.
pub record Work (D : Type 0) : Type 0 where
  pub bufs : PageBufs
  pub old : BlockInfo
  pub fresh : BlockInfo
  pub pending : PendingList
  pub dev : D

-- The owner of the pages and the time stamp of the new block.
pub record Owner : Type 0 where
  pub kind : ℕ
  pub parent : ℕ
  pub serial : ℕ
  pub time_stamp : ℕ

-- The copy so far: the sum of the name, the result of the last write, and, once the loop was left, if
-- the copy is whole.
pub record Copying (D : Type 0) : Type 0 where
  pub work : Work D
  pub sum : ℕ
  pub op : FlashResult
  pub ended : Option Bool

unfoldable pub put_tag : BlockInfo → ℕ → Tags → BlockInfo
put_tag bc page tag = record bc {
  spares =
      set bc.spares page
        (record (get_or bc.spares page (record { tag = erased_tag; expired = true })) {
          tag = tag;
        });
}

-- UFFS_TYPE_DIR.
abbrev pub type_dir : ℕ
type_dir = 0

unfoldable pub get_dir_or_file_name_sum : (Bytes → List ℕ) → Buf → ℕ
get_dir_or_file_name_sum file_name b =
    if ((b.kind == type_file) || (b.kind == type_dir)) && (b.page_id == 0)
    then crc16sum (file_name b.content)
    else 0

unfoldable pub clip : ℕ → ℕ → ℕ
clip pg_data_size data_len = if ltb pg_data_size data_len then pg_data_size else data_len

-- The fields of a tag have 2, 10, 14, 2, 6 and 12 bits.
unfoldable pub fresh_tag : Owner → ℕ → ℕ → Tags → Tags
fresh_tag o page_id data_len tag = record tag {
  dirty = 0;
  valid = 0;
  block_ts = o.time_stamp % 4;
  parent = o.parent % 1024;
  serial = o.serial % 16384;
  kind = o.kind % 4;
  page_id = page_id % 64;
  data_len = data_len % 4096;
  seal_byte = 0;
}

-- The block was written without an error and needs no refresh.
unfoldable pub is_good_write : FlashResult → Bool
unfolding flash_have_err flash_is_bad_block
is_good_write ecc_ok = false
is_good_write no_err = true
is_good_write not_sealed = true
is_good_write io_err = false
is_good_write ecc_fail = false
is_good_write bad_blk = false
is_good_write crc_err = false
is_good_write unknown_err = false

-- The page of the old block in a clone buffer, after the read.
unfoldable pub clone_of : Owner → Buf → Option ℕ → Bytes → Tags → Buf
clone_of o b pending_mark content old_tag = record b {
  content = content;
  mark = (elim pending_mark [ none ↦ b.mark | some m ↦ valid ]);
  kind = o.kind;
  parent = o.parent;
  serial = o.serial;
  page_id = old_tag.page_id;
  data_len = old_tag.data_len;
}

unfoldable pub with_bufs : {D : Type 0} → Copying D → PageBufs → Copying D
with_bufs c bufs = record c { work = record c.work { bufs = bufs } }

unfoldable pub is_none : Option ℕ → Bool
is_none none = true
is_none (some x) = false

unfoldable pub with_loaded : {D : Type 0} → Copying D → Loaded → Copying D
with_loaded c l = record c { work = record c.work { old = l.bc; pending = l.pending } }

module _ {D : Type 0} (calls : FlashCalls D) where
  -- A buffer is written to a page of the new block under a tag of the new block.
  unfoldable pub write_fresh : Work D → ℕ → ℕ → Tags → FlashResult × Work D
  unfolding put_tag
  write_fresh w page p tag =
      let (ret, done, dev) = calls.write_page w.dev w.fresh.block page (w.bufs.buf p) tag in
      (ret, record w { fresh = put_tag w.fresh page done; dev = dev })

  -- A buffer of the dirty list. A truncated file ends with it.
  unfoldable pub copy_dirty : Owner → ℕ → Copying D → ℕ → Copying D
  unfolding write_fresh get_dir_or_file_name_sum fresh_tag
  copy_dirty o i c p =
      let b = c.work.bufs.buf p in
      let tag = fresh_tag o i b.data_len (get_tag c.work.fresh i) in
      let sum = if i == 0 then get_dir_or_file_name_sum calls.file_name b else c.sum in
      let (ret, written) = write_fresh c.work i p tag in
      if (b.data_len == 0) || b.trunc_tail
      then (if ltb 0 b.data_len
          then record { work = written; sum = sum; op = ret; ended = some true }
          else record {
            work = record c.work { fresh = put_tag c.work.fresh i tag };
            sum = sum;
            op = no_err;
            ended = some true;
          })
      else record { work = written; sum = sum; op = ret; ended = none }

  -- A buffer with the page of the old block.
  unfoldable pub copy_buf : Owner → ℕ → Copying D → ℕ → Copying D
  unfolding write_fresh get_dir_or_file_name_sum fresh_tag clip store
  copy_buf o i c p =
      let w = c.work in
      let b = w.bufs.buf p in
      let cut = record b { data_len = clip w.bufs.pg_data_size b.data_len } in
      let tag = fresh_tag o i cut.data_len (get_tag w.fresh i) in
      let bufs = record w.bufs { buf = store w.bufs.buf p cut } in
      let (ret, written) = write_fresh (record w { bufs = bufs }) i p tag in
      record {
        work = written;
        sum = (if i == 0 then get_dir_or_file_name_sum calls.file_name cut else c.sum);
        op = ret;
        ended = none;
      }

  -- The page of the old block is read into the clone buffer `p`.
  unfoldable pub copy_clone : Owner → ℕ → Copying D → ℕ → ℕ → Copying D
  unfolding copy_buf clone_of with_bufs store is_none
  copy_clone o i c page p =
      let w = c.work in
      let b = w.bufs.buf p in
      let r = calls.read_page w.dev w.old.block page b.content in
      let (pending_mark, pending) = bad_block_add_by_flash_result w.pending w.old.block (r.0) in
      let ready = record c { work = record w { pending = pending } } in
      let lost = record w.bufs {
        buf = store w.bufs.buf p (record b { content = r.1; mark = empty });
      } in
      let full = record w.bufs {
        buf = store w.bufs.buf p (clone_of o b pending_mark (r.1) (get_tag w.old page));
      } in
      let copied = copy_buf o i (with_bufs ready full) p in
      if is_none pending_mark && flash_have_err (r.0)
      then record (with_bufs ready (buf_free_clone lost (some p)).1) { ended = some false }
      else with_bufs copied (buf_free_clone copied.work.bufs (some p)).1

  unfoldable pub copy_by_clone : Owner → ℕ → Copying D → ℕ → Option ℕ × PageBufs → Copying D
  unfolding copy_clone
  copy_by_clone o i c page (none, bufs) = record (with_bufs c bufs) { ended = some false }
  copy_by_clone o i c page (some p, bufs) = copy_clone o i (with_bufs c bufs) page p

  -- A cached buffer with the page, or a clone buffer.
  unfoldable pub copy_cached : Owner → ℕ → Copying D → ℕ → Option ℕ × PageBufs → Copying D
  unfolding copy_buf copy_by_clone
  copy_cached o i c page (none, bufs) =
      copy_by_clone o i (with_bufs c bufs) page (buf_clone bufs none)
  copy_cached o i c page (some p, bufs) =
      let copied = copy_buf o i (with_bufs c bufs) p in
      with_bufs copied (buf_put copied.work.bufs (some p)).1

  -- `page` is the page that the search for the page id `i` gave, and `l` what it left behind.
  unfoldable pub copy_found : Owner → ℕ → ℕ → Copying D → ℕ → Loaded → Copying D
  unfolding copy_cached with_loaded
  copy_found o pages_per_block i c page l =
      let best = find_best_page_in_block (calls.read_tag c.work.dev) pages_per_block page l in
      if page == invalid_page
      then record (with_loaded c l) { ended = some true }
      else if best.0 == invalid_page
      then record (with_loaded c (best.1)) { ended = some false }
      else copy_cached o i (with_loaded c (best.1)) (best.0)
          (buf_get c.work.bufs o.parent o.serial i)

  -- The page with the page id `i` in the old block.
  unfoldable pub copy_old : Owner → ℕ → ℕ → Copying D → Copying D
  unfolding copy_found
  copy_old o pages_per_block i c =
      let first =
        find_page_in_block_with_page_id (calls.read_tag c.work.dev) pages_per_block i
          (record { bc = c.work.old; pending = c.work.pending }) in
      copy_found o pages_per_block i c (first.0) (first.1)

  unfoldable pub copy_page : Owner → ℕ → ℕ → Copying D → Option ℕ → Copying D
  unfolding copy_dirty copy_old
  copy_page o pages_per_block i c (some p) = copy_dirty o i c p
  copy_page o pages_per_block i c none = copy_old o pages_per_block i c

  -- The tag of the page in the cache of the new block, before the page is looked for.
  unfoldable pub start_page : Owner → ℕ → Copying D → Copying D
  unfolding put_tag fresh_tag
  start_page o i c =
      let tag = get_tag c.work.fresh i in
      record c {
        work = record c.work { fresh = put_tag c.work.fresh i (fresh_tag o i tag.data_len tag) };
      }

  -- What follows a round: `ended` and `good` say if it left the loop and if its write was good.
  unfoldable pub after_round : Option Bool → Bool → ℕ → Copying D → ℕ × Copying D → ℕ × Copying D
  after_round (some whole) good i r later = (i, r)
  after_round none true i r later = later
  after_round none false i r later = (i, record r { ended = some false })

  -- The loop from page `i` on, with `rounds` pages left: where it was left.
  unfoldable pub copy_loop : Owner → ℕ → List ℕ → ℕ → ℕ → Copying D → ℕ × Copying D
  unfolding copy_page is_good_write after_round start_page
  copy_loop o pages_per_block dirty zero i c = (i, record c { ended = some true })
  copy_loop o pages_per_block dirty (suc rounds) i c =
      let dirty_buf = find_buf_in_dirty_list c.work.bufs.buf i dirty in
      let r = copy_page o pages_per_block i (start_page o i c) dirty_buf in
      let later = copy_loop o pages_per_block dirty rounds (i + 1) r in
      after_round r.ended (is_good_write r.op) i r later
