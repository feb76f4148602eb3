-- ===== src/Buf.antt =====
-- src/uffs_buf.c: the page buffers. A buffer is named by its address; `buf` is what stands there. The
-- doubly linked list of buffers from `head` to `tail`, the list of clone buffers and the list of the
-- dirty buffers of a group are lists of addresses: moving a buffer to the head puts it in front.
-- NULL is `none`.
pub mod Memory
pub mod Order
pub mod Clone
mod Examples
use esp_uffs.Prelude.{
  ℕ, zero, suc, ◌+◌, ◌-◌, ◌<◌, ◌≤◌, List, [], ◌∷◌, Bool, true, false, not, ◌&&◌, ◌||◌, Option, none,
  some, ltb, leb, ◌==◌, if◌then◌else◌, length, set,
}
use esp_uffs.Prelude.Words.{u16}
use esp_uffs.Flash.{Bytes, memcpy, memset}
use esp_uffs.BlockInfo.{all_pages}

-- UFFS_BUF_EMPTY, UFFS_BUF_VALID and UFFS_BUF_DIRTY.
pub data Mark : Type 0 where
  empty : Mark
  valid : Mark
  dirty : Mark

unfoldable pub is_empty : Mark → Bool
is_empty empty = true
is_empty valid = false
is_empty dirty = false

unfoldable pub is_dirty : Mark → Bool
is_dirty empty = false
is_dirty valid = false
is_dirty dirty = true

-- uffs_BufSt without its links. `content` are the bytes behind the mini header.
pub record Buf : Type 0 where
  pub kind : ℕ
  pub trunc_tail : Bool
  pub parent : ℕ
  pub serial : ℕ
  pub page_id : ℕ
  pub mark : Mark
  pub ref_count : ℕ
  pub data_len : ℕ
  pub content : Bytes

pub record DirtyGroup : Type 0 where
  pub dirty : List ℕ
  pub count : ℕ
  pub lock : ℕ

-- The groups are those that are configured (`dirty_groups`).
pub record PageBufs : Type 0 where
  pub buf : ℕ → Buf
  pub list : List ℕ
  pub clones : List ℕ
  pub groups : List DirtyGroup
  pub dirty_buf_max : ℕ
  pub pg_data_size : ℕ

unfoldable pub store : (ℕ → Buf) → ℕ → Buf → ℕ → Buf
store buf p b = λ q. if q == p then b else buf q

unfoldable pub remove : ℕ → List ℕ → List ℕ
remove p [] = []
remove p (q ∷ rest) = if q == p then rest else q ∷ remove p rest

unfoldable pub move_node_to_head : PageBufs → ℕ → PageBufs
unfolding remove
move_node_to_head s p = record s { list = p ∷ remove p s.list }

-- The first address whose buffer passes a test.
unfoldable pub first_such : (Buf → Bool) → (ℕ → Buf) → List ℕ → Option ℕ
first_such test buf [] = none
first_such test buf (p ∷ rest) = if test (buf p) then some p else first_such test buf rest

unfoldable pub matches : ℕ → ℕ → ℕ → Buf → Bool
unfolding is_empty
matches parent serial page_id p =
    (p.parent == parent)
    && (p.serial == serial)
    && ((page_id == all_pages) || (p.page_id == page_id))
    && not (is_empty p.mark)

-- `start` are the buffers from the given one on.
unfoldable pub buf_find_from : PageBufs → List ℕ → ℕ → ℕ → ℕ → Option ℕ
buf_find_from s start parent serial page_id = first_such (matches parent serial page_id) s.buf start

unfoldable pub buf_find : PageBufs → ℕ → ℕ → ℕ → Option ℕ
unfolding buf_find_from
buf_find s parent serial page_id = buf_find_from s s.list parent serial page_id

unfoldable pub hold : PageBufs → Option ℕ → Option ℕ × PageBufs
unfolding move_node_to_head store
hold s none = (none, s)
hold s (some p) =
    let b = s.buf p in
    (
      some p,
      move_node_to_head
          (record s { buf = store s.buf p (record b { ref_count = u16 (b.ref_count + 1) }) }) p,
    )

unfoldable pub buf_get : PageBufs → ℕ → ℕ → ℕ → Option ℕ × PageBufs
unfolding hold
buf_get s parent serial page_id = hold s (buf_find s parent serial page_id)

-- The search from the tail is one in the list turned round: the last that passes.
unfoldable pub last_such : (Buf → Bool) → (ℕ → Buf) → List ℕ → Option ℕ
last_such test buf [] = none
last_such test buf (p ∷ rest) = (elim (last_such test buf rest) [
  | none ↦ if test (buf p) then some p else none
  | some q ↦ some q
])

unfoldable pub is_free_buf : Buf → Bool
unfolding is_dirty
is_free_buf b = (b.ref_count == 0) && not (is_dirty b.mark)

unfoldable pub find_free_buf : PageBufs → Option ℕ
find_free_buf s = last_such is_free_buf s.buf s.list

abbrev pub clone_buf_mark : ℕ
clone_buf_mark = 0xffff

-- `true` stands for U_SUCC.
unfoldable pub buf_free_clone : PageBufs → Option ℕ → Bool × PageBufs
unfolding store
buf_free_clone s none = (false, s)
buf_free_clone s (some p) =
    let b = s.buf p in
    if b.ref_count == clone_buf_mark
    then (
      true,
      record s {
        buf = store s.buf p (record b { ref_count = 0; mark = empty });
        clones = p ∷ s.clones;
      },
    )
    else (false, s)

unfoldable pub buf_put : PageBufs → Option ℕ → Bool × PageBufs
unfolding buf_free_clone store
buf_put s none = (false, s)
buf_put s (some p) =
    let b = s.buf p in
    if b.ref_count == 0
    then (false, s)
    else if b.ref_count == clone_buf_mark
    then buf_free_clone s (some p)
    else (true, record s { buf = store s.buf p (record b { ref_count = b.ref_count - 1 }) })

-- What a clone takes over from the buffer that it is made of.
unfoldable pub copy_from : Buf → Buf → Buf
copy_from b p = record p {
  parent = b.parent;
  kind = b.kind;
  serial = b.serial;
  page_id = b.page_id;
  data_len = b.data_len;
  content = b.content;
}

unfoldable pub clone_into : PageBufs → Option ℕ → List ℕ → Option ℕ × PageBufs
unfolding store copy_from
clone_into s source [] = (none, s)
clone_into s none (p ∷ rest) = (
  some p,
  record s { buf = store s.buf p (record (s.buf p) { ref_count = clone_buf_mark }); clones = rest },
)
clone_into s (some q) (p ∷ rest) = (
  some p,
  record s {
    buf = store s.buf p (record (copy_from (s.buf q) (s.buf p)) { ref_count = clone_buf_mark });
    clones = rest;
  },
)

unfoldable pub buf_clone : PageBufs → Option ℕ → Option ℕ × PageBufs
unfolding clone_into
buf_clone s source = clone_into s source s.clones

unfoldable pub all_such : (Buf → Bool) → (ℕ → Buf) → List ℕ → Bool
all_such test buf [] = true
all_such test buf (p ∷ rest) = if test (buf p) then all_such test buf rest else false

unfoldable pub buf_is_all_free : PageBufs → Bool
unfolding all_such
buf_is_all_free s = all_such (λ b. b.ref_count == 0) s.buf s.list

unfoldable pub buf_is_all_empty : PageBufs → Bool
unfolding all_such is_empty
buf_is_all_empty s = all_such (λ b. is_empty b.mark) s.buf s.list

unfoldable pub empty_all : (ℕ → Buf) → List ℕ → ℕ → Buf
unfolding store
empty_all buf [] = buf
empty_all buf (p ∷ rest) = empty_all (store buf p (record (buf p) { mark = empty })) rest

unfoldable pub buf_set_all_empty : PageBufs → PageBufs
unfolding empty_all
buf_set_all_empty s = record s { buf = empty_all s.buf s.list }

unfoldable pub buf_inc_ref : PageBufs → ℕ → PageBufs
unfolding store
buf_inc_ref s p =
    let b = s.buf p in
    record s { buf = store s.buf p (record b { ref_count = u16 (b.ref_count + 1) }) }

unfoldable pub buf_dec_ref : PageBufs → ℕ → PageBufs
unfolding store
buf_dec_ref s p =
    let b = s.buf p in
    if ltb 0 b.ref_count
    then record s { buf = store s.buf p (record b { ref_count = b.ref_count - 1 }) }
    else s
