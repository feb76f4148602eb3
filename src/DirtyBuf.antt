-- ===== src/DirtyBuf.antt =====
-- src/uffs_buf.c: the groups of dirty buffers, and writing to and reading from buffers. Writing a group
-- to the flash (`_BufFlush`, without a forced recovery) is a parameter, `flush`.
pub mod Slots
pub mod Marks
pub mod Change
pub mod Link
pub mod Write
pub mod Least
pub mod Content
mod Examples
use esp_uffs.Prelude.{
  ℕ, zero, suc, ◌+◌, ◌-◌, ◌<◌, ◌≤◌, List, [], ◌∷◌, Bool, true, false, not, ◌&&◌, ◌||◌, Option, none,
  some, ltb, leb, ◌==◌, if◌then◌else◌, length,
}
use esp_uffs.Prelude.Words.{u16, u32}
use esp_uffs.Flash.{Bytes, memcpy, memset}
use esp_uffs.TagStore.{slice}
use esp_uffs.Buf.{
  Mark, empty, valid, dirty, is_empty, is_dirty, Buf, DirtyGroup, PageBufs, store, remove,
  first_such, buf_get, find_free_buf, move_node_to_head,
}

-- The first slot of a group that passes a test, from `slot` on; `none` for -1.
unfoldable pub slot_such : (DirtyGroup → Bool) → ℕ → List DirtyGroup → Option ℕ
slot_such test slot [] = none
slot_such test slot (g ∷ rest) = if test g then some slot else slot_such test (slot + 1) rest

unfoldable pub no_dirty : List ℕ → Bool
no_dirty [] = true
no_dirty (p ∷ rest) = false

unfoldable pub buf_find_free_group_slot : PageBufs → Option ℕ
unfolding slot_such no_dirty
buf_find_free_group_slot s = slot_such (λ g. no_dirty g.dirty) 0 s.groups

-- The first dirty buffer tells whose pages the group holds.
unfoldable pub group_of : (ℕ → Buf) → ℕ → ℕ → List ℕ → Bool
group_of buf parent serial [] = false
group_of buf parent serial (p ∷ rest) = ((buf p).parent == parent) && ((buf p).serial == serial)

unfoldable pub buf_find_group_slot : PageBufs → ℕ → ℕ → Option ℕ
unfolding slot_such group_of
buf_find_group_slot s parent serial =
    slot_such (λ g. group_of s.buf parent serial g.dirty) 0 s.groups

unfoldable pub most_dirty_loop : ℕ → List DirtyGroup → Option ℕ → ℕ → Option ℕ
unfolding no_dirty
most_dirty_loop i [] slot max_count = slot
most_dirty_loop i (g ∷ rest) slot max_count =
    let more = not (no_dirty g.dirty) && (g.lock == 0) && ltb max_count g.count in
    most_dirty_loop (i + 1) rest (if more then some i else slot)
      (if more then g.count else max_count)

unfoldable pub find_most_dirty_group : PageBufs → Option ℕ
unfolding most_dirty_loop
find_most_dirty_group s = most_dirty_loop 0 s.groups none 0

unfoldable pub change_group : (DirtyGroup → DirtyGroup) → ℕ → List DirtyGroup → List DirtyGroup
change_group f slot [] = []
change_group f zero (g ∷ rest) = f g ∷ rest
change_group f (suc slot) (g ∷ rest) = g ∷ change_group f slot rest

-- A slot below 0 is refused like one that is too large.
unfoldable pub buf_lock_group : PageBufs → ℕ → Bool × PageBufs
unfolding change_group
buf_lock_group s slot =
    if ltb slot (length s.groups)
    then (
      true,
      record s { groups = change_group (λ g. record g { lock = g.lock + 1 }) slot s.groups },
    )
    else (false, s)

unfoldable pub buf_unlock_group : PageBufs → ℕ → Bool × PageBufs
unfolding change_group
buf_unlock_group s slot =
    if ltb slot (length s.groups)
    then (
      true,
      record s { groups = change_group (λ g. record g { lock = g.lock - 1 }) slot s.groups },
    )
    else (false, s)

unfoldable pub is_in : ℕ → List ℕ → Bool
is_in p [] = false
is_in p (q ∷ rest) = if q == p then true else is_in p rest

unfoldable pub link_to_dirty_list : PageBufs → ℕ → ℕ → PageBufs
unfolding store change_group
link_to_dirty_list s slot p = record s {
  buf = store s.buf p (record (s.buf p) { mark = dirty });
  groups = change_group (λ g. record g { dirty = p ∷ g.dirty; count = g.count + 1 }) slot s.groups;
}

unfoldable pub unlink_from : PageBufs → ℕ → Option ℕ → Bool × PageBufs
unfolding change_group remove
unlink_from s p none = (false, s)
unlink_from s p (some slot) = (
  true,
  record s {
    groups =
        change_group (λ g. record g { dirty = remove p g.dirty; count = g.count - 1 }) slot
          s.groups;
  },
)

unfoldable pub break_from_dirty : PageBufs → ℕ → Bool × PageBufs
unfolding unlink_from
break_from_dirty s p =
    let b = s.buf p in
    if not (is_dirty b.mark)
    then (false, s)
    else unlink_from s p (buf_find_group_slot s b.parent b.serial)

-- The buffer is discarded if nobody holds it.
unfoldable pub buf_mark_empty : PageBufs → ℕ → PageBufs
unfolding break_from_dirty store
buf_mark_empty s p =
    let b = s.buf p in
    let broken = if is_dirty b.mark then (break_from_dirty s p).1 else s in
    if not (is_empty b.mark) && (b.ref_count == 0)
    then record broken { buf = store broken.buf p (record (broken.buf p) { mark = empty }) }
    else s

unfoldable pub same_owner : (ℕ → Buf) → ℕ → ℕ → List ℕ → Bool
same_owner buf parent serial [] = true
same_owner buf parent serial (p ∷ rest) =
    if not (((buf p).parent == parent) && ((buf p).serial == serial))
    then false
    else if not (is_dirty (buf p).mark)
    then false
    else same_owner buf parent serial rest

-- The mark of the first buffer is not looked at.
unfoldable pub check_dirty_list : (ℕ → Buf) → List ℕ → Bool
unfolding same_owner
check_dirty_list buf [] = true
check_dirty_list buf (p ∷ rest) = same_owner buf (buf p).parent (buf p).serial rest

unfoldable pub least_loop : (ℕ → Buf) → ℕ → List ℕ → ℕ
least_loop buf p [] = p
least_loop buf p (q ∷ rest) =
    least_loop buf (if ltb (buf q).page_id (buf p).page_id then q else p) rest

unfoldable pub find_minimum_page_id : (ℕ → Buf) → List ℕ → Option ℕ
unfolding least_loop
find_minimum_page_id buf [] = none
find_minimum_page_id buf (p ∷ rest) = some (least_loop buf p rest)

unfoldable pub find_buf_in_dirty_list : (ℕ → Buf) → ℕ → List ℕ → Option ℕ
find_buf_in_dirty_list buf page_id list = first_such (λ b. b.page_id == page_id) buf list

-- `_BufFlush` of a slot.
abbrev pub Flush : Type 0
Flush = PageBufs → ℕ → Bool × PageBufs

unfoldable pub flush_slot : Flush → PageBufs → Option ℕ → Bool × PageBufs
flush_slot flush s none = (true, s)
flush_slot flush s (some slot) = flush s slot

unfoldable pub buf_flush_most_dirty_group : Flush → PageBufs → Bool × PageBufs
unfolding flush_slot
buf_flush_most_dirty_group flush s = flush_slot flush s (find_most_dirty_group s)

unfoldable pub flush_unless_free : Flush → PageBufs → Option ℕ → Bool × PageBufs
flush_unless_free flush s none = buf_flush_most_dirty_group flush s
flush_unless_free flush s (some slot) = (true, s)

unfoldable pub buf_flush : Flush → PageBufs → Bool × PageBufs
unfolding flush_unless_free
buf_flush flush s = flush_unless_free flush s (buf_find_free_group_slot s)

unfoldable pub buf_flush_group : Flush → PageBufs → ℕ → ℕ → Bool × PageBufs
unfolding flush_slot
buf_flush_group flush s parent serial = flush_slot flush s (buf_find_group_slot s parent serial)

-- The slot to write to; `none` where the write fails.
unfoldable pub slot_after_flush : Bool × PageBufs → Option ℕ × PageBufs
slot_after_flush (false, s) = (none, s)
slot_after_flush (true, s) = (buf_find_free_group_slot s, s)

unfoldable pub or_free_slot : Flush → PageBufs → Option ℕ → Option ℕ → Option ℕ × PageBufs
unfolding slot_after_flush
or_free_slot flush s (some slot) free = (some slot, s)
or_free_slot flush s none (some slot) = (some slot, s)
or_free_slot flush s none none = slot_after_flush (buf_flush_most_dirty_group flush s)

unfoldable pub take_slot : Flush → PageBufs → ℕ → ℕ → Option ℕ × PageBufs
unfolding or_free_slot
take_slot flush s parent serial =
    or_free_slot flush s (buf_find_group_slot s parent serial) (buf_find_free_group_slot s)

-- The bytes that are given, or zeros where `data` is NULL.
unfoldable pub write_content : Bytes → Option Bytes → ℕ → ℕ → Bytes
unfolding memcpy memset
write_content content none ofs len = memset content ofs 0 len
write_content content (some bytes) ofs len = memcpy content ofs bytes 0 len

unfoldable pub write_buf : Buf → Option Bytes → ℕ → ℕ → Buf
unfolding write_content
write_buf b bytes ofs len = record b {
  content = write_content b.content bytes ofs len;
  data_len = if ltb b.data_len (ofs + len) then u16 (ofs + len) else b.data_len;
}

unfoldable pub group_at : ℕ → List DirtyGroup → DirtyGroup
group_at slot [] = record { dirty = []; count = 0; lock = 0 }
group_at zero (g ∷ rest) = g
group_at (suc slot) (g ∷ rest) = group_at slot rest

unfoldable pub link_once : PageBufs → ℕ → ℕ → PageBufs
unfolding is_in group_at link_to_dirty_list
link_once s slot p =
    if is_in p (group_at slot s.groups).dirty then s else link_to_dirty_list s slot p

unfoldable pub flush_if_full : Flush → PageBufs → ℕ → ℕ → Bool × PageBufs
unfolding group_at
flush_if_full flush s slot p =
    if leb s.dirty_buf_max (group_at slot s.groups).count
    then buf_flush_group flush s (s.buf p).parent (s.buf p).serial
    else (true, s)

-- The write once the slot is known.
unfoldable pub write_in_slot :
    Flush → PageBufs → ℕ → Option Bytes → ℕ → ℕ → Option ℕ → Bool × PageBufs
unfolding store write_buf link_once flush_if_full
write_in_slot flush s p bytes ofs len none = (false, s)
write_in_slot flush s p bytes ofs len (some slot) =
    let written = record s { buf = store s.buf p (write_buf (s.buf p) bytes ofs len) } in
    flush_if_full flush (link_once written slot p) slot p

unfoldable pub buf_write : Flush → PageBufs → ℕ → Option Bytes → ℕ → ℕ → Bool × PageBufs
unfolding take_slot write_in_slot
buf_write flush s p bytes ofs len =
    let (slot, ready) = take_slot flush s (s.buf p).parent (s.buf p).serial in
    if ltb s.pg_data_size (u32 (ofs + len))
    then (false, s)
    else write_in_slot flush ready p bytes ofs len slot

unfoldable pub read_size : ℕ → ℕ → ℕ → ℕ
read_size pg_data_size ofs len =
    if leb pg_data_size ofs
    then 0
    else if leb pg_data_size (u32 (ofs + len))
    then pg_data_size - ofs
    else len

-- The bytes that are copied out.
unfoldable pub buf_read : PageBufs → ℕ → ℕ → ℕ → List ℕ
unfolding read_size
buf_read s p ofs len = slice (s.buf p).content ofs (read_size s.pg_data_size ofs len)

unfoldable pub start_buf : PageBufs → ℕ → ℕ → ℕ → ℕ → Option ℕ → Option ℕ × PageBufs
unfolding store move_node_to_head memset
start_buf s kind parent serial page_id none = (none, s)
start_buf s kind parent serial page_id (some p) =
    let b = s.buf p in
    let started = record b {
      mark = empty;
      kind = kind;
      parent = parent;
      serial = serial;
      page_id = page_id;
      data_len = 0;
      ref_count = u16 (b.ref_count + 1);
      content = memset b.content 0 0xff s.pg_data_size;
    } in
    (some p, move_node_to_head (record s { buf = store s.buf p started }) p)

unfoldable pub new_or_flush : Flush → PageBufs → ℕ → ℕ → ℕ → ℕ → Option ℕ → Option ℕ × PageBufs
unfolding start_buf
new_or_flush flush s kind parent serial page_id (some p) =
    start_buf s kind parent serial page_id (some p)
new_or_flush flush s kind parent serial page_id none =
    let flushed = (buf_flush_most_dirty_group flush s).1 in
    start_buf flushed kind parent serial page_id (find_free_buf flushed)

unfoldable pub renew_buf :
    Option ℕ × PageBufs → (PageBufs → Option ℕ × PageBufs) → Option ℕ × PageBufs
unfolding store move_node_to_head
renew_buf (none, s) fresh = fresh s
renew_buf (some p, s) fresh =
    let b = s.buf p in
    let cut = if ltb 1 b.ref_count then b else record b { data_len = 0 } in
    (some p, move_node_to_head (record s { buf = store s.buf p cut }) p)

unfoldable pub buf_new : Flush → PageBufs → ℕ → ℕ → ℕ → ℕ → Option ℕ × PageBufs
unfolding renew_buf new_or_flush
buf_new flush s kind parent serial page_id =
    renew_buf (buf_get s parent serial page_id)
      (λ t. new_or_flush flush t kind parent serial page_id (find_free_buf t))
