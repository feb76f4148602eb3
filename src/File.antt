-- ===== src/File.antt =====
-- src/uffs_fs.c: where a file offset lies, reading an object, and its position. The file's length stands in
-- its tree node. What the reading calls below is a parameter, on a state of any type: the search for a
-- data node (uffs_TreeFindDataNode), the buffer of a page (uffs_BufGetEx), its return (uffs_BufPut) and the
-- care for bad blocks that were found on the way (uffs_BadBlockRecover).
pub mod Place
pub mod Slice
pub mod Page
pub mod Read
pub mod Seek
mod Examples
use esp_uffs.Prelude.{
  ℕ, zero, suc, ◌+◌, ◌-◌, ◌*◌, ◌/◌, ◌%◌, List, [], ◌∷◌, ◌++◌, Bool, true, false, not, ◌&&◌, ◌||◌,
  Option, none, some, ltb, leb, ◌==◌, if◌then◌else◌, bit_and,
}
use esp_uffs.Prelude.Words.{u16, u32}
use esp_uffs.MountTable.{ℤ, pos, negsuc, ◌+ℤ◌}
use esp_uffs.TagStore.{slice}
use esp_uffs.Buf.{Buf}
use esp_uffs.DirtyBuf.{read_size}
use esp_uffs.Public.{type_file}
use esp_uffs.Flush.{type_dir}

-- UENOERR, UEACCES, UEINVAL, UEBADF, UEIOERR and UEUNKNOWN_ERR.
pub data ObjectError : Type 0 where
  ue_no_err : ObjectError
  ue_acces : ObjectError
  ue_inval : ObjectError
  ue_badf : ObjectError
  ue_io_err : ObjectError
  ue_unknown_err : ObjectError

-- The part of uffs_ObjectSt that reading uses, with the sizes of its device. `is_open`: it has a device and
-- was opened.
pub record Object : Type 0 where
  pub is_open : Bool
  pub kind : ℕ
  pub oflag : ℕ
  pub head_pages : ℕ
  pub pg_data_size : ℕ
  pub pages_per_block : ℕ
  pub file_len : ℕ
  pub position : ℕ
  pub err : ObjectError

-- The file's blocks are named by `fdn`: 0 for the block of the file, then its data blocks.
pub record PageCalls (D : Type 0) : Type 0 where
  pub has_data_node : D → ℕ → Bool
  pub buf_get_ex : D → ℕ → ℕ → Option Buf × D
  pub buf_put : D → D
  pub recover : D → D

-- UO_WRONLY.
abbrev pub wronly : ℕ
wronly = 0x0001

unfoldable pub get_fdn_by_ofs : Object → ℕ → ℕ
get_fdn_by_ofs o ofs =
    let head = u32 (o.head_pages * o.pg_data_size) in
    if ltb ofs head then 0 else u16 ((ofs - head) / (o.pg_data_size * o.pages_per_block) + 1)

unfoldable pub get_start_of_data_block : Object → ℕ → ℕ
get_start_of_data_block o fdn =
    if fdn == 0
    then 0
    else u32 (o.head_pages * o.pg_data_size + (fdn - 1) * (o.pg_data_size * o.pages_per_block))

-- Page 0 of the block of the file holds its attributes.
unfoldable pub page_id_of_ofs : Object → ℕ → ℕ
page_id_of_ofs o ofs =
    let fdn = get_fdn_by_ofs o ofs in
    let page = u16 ((ofs - get_start_of_data_block o fdn) / o.pg_data_size) in
    if fdn == 0 then u16 (page + 1) else page

-- A position behind the end of the file is no error.
unfoldable pub read_refused : Object → Option ObjectError
read_refused o =
    if not o.is_open || (o.kind == type_dir)
    then some ue_badf
    else if ltb o.file_len o.position
    then some o.err
    else if not (bit_and o.oflag wronly == 0)
    then some ue_acces
    else none

-- A read in progress: what is left to read and the bytes so far.
pub record Reading (D : Type 0) : Type 0 where
  pub dev : D
  pub err : ObjectError
  pub remain : ℕ
  pub bytes : List ℕ

module _ {D : Type 0} (calls : PageCalls D) where
  -- One page, from the buffer that was got; `true` to go on.
  unfoldable pub read_page : Object → ℕ → Reading D → Option Buf × D → Bool × Reading D
  unfolding read_size slice
  read_page o start r (none, dev) = (false, record r { dev = dev; err = ue_io_err })
  read_page o start r (some b, dev) =
      let page_ofs = start % o.pg_data_size in
      let size =
        if ltb b.data_len (u32 (r.remain + page_ofs)) then b.data_len - page_ofs else r.remain in
      let put = record r { dev = calls.buf_put dev } in
      if leb b.data_len page_ofs then (false, put) else (
        true,
        record put {
          remain = r.remain - size;
          bytes = r.bytes ++ slice b.content page_ofs (read_size o.pg_data_size page_ofs size);
        },
      )

  -- A round of the loop that reads from `start` on.
  unfoldable pub read_round : Object → ℕ → Reading D → Bool × Reading D
  unfolding read_page get_fdn_by_ofs page_id_of_ofs
  read_round o start r =
      let fdn = get_fdn_by_ofs o start in
      if r.remain == 0 || leb o.file_len start
      then (false, r)
      else if not (fdn == 0) && not (calls.has_data_node r.dev fdn)
      then (false, record r { err = ue_unknown_err })
      else read_page o start r (calls.buf_get_ex r.dev fdn (page_id_of_ofs o start))

  unfoldable pub go_on : Bool × Reading D → Reading D → Reading D
  go_on (true, r) later = later
  go_on (false, r) later = r

  -- The loop over the pages; it goes on at most `fuel` times.
  unfoldable pub read_loop : Object → ℕ → ℕ → Reading D → Reading D
  unfolding read_round go_on
  read_loop o len zero r = r
  read_loop o len (suc fuel) r =
      let next = read_round o (u32 (o.position + len - r.remain)) r in
      go_on next (read_loop o len fuel (next.1))

  -- What reading gives: the number of bytes, the bytes, and the object and the device after it; `refused`
  -- is the error of an object that is not read.
  unfoldable pub end_read :
      Object → ℕ → D → Reading D → Option ObjectError → ℕ × List ℕ × Object × D
  end_read o len dev r (some e) = (0, [], record o { err = e }, dev)
  end_read o len dev r none = (
    len - r.remain,
    r.bytes,
    record o { err = r.err; position = u32 (o.position + (len - r.remain)) },
    calls.recover r.dev,
  )

  unfoldable pub read_object : Object → ℕ → D → ℕ × List ℕ × Object × D
  unfolding read_loop end_read read_refused
  read_object o len dev =
      let r = read_loop o len len (record { dev = dev; err = o.err; remain = len; bytes = [] }) in
      end_read o len dev r (read_refused o)

-- -1 is `none`.
unfoldable pub get_cur_offset : Object → Option ℕ
get_cur_offset o = if o.is_open then some o.position else none

-- 1, 0 and -1 are `some true`, `some false` and `none`.
unfoldable pub end_of_file : Object → Option Bool
end_of_file o =
    if o.is_open && (o.kind == type_file) then some (leb o.file_len o.position) else none

-- USEEK_CUR, USEEK_SET, USEEK_END, and any other number.
pub data Origin : Type 0 where
  use_cur : Origin
  use_set : Origin
  use_end : Origin
  use_other : Origin

unfoldable pub is_no_err : ObjectError → Bool
is_no_err ue_no_err = true
is_no_err ue_acces = false
is_no_err ue_inval = false
is_no_err ue_badf = false
is_no_err ue_io_err = false
is_no_err ue_unknown_err = false

-- A `long` has 32 bits: a u32 that is cast to it, and a sum, wrap around.
unfoldable pub to_long : ℕ → ℤ
to_long n = if ltb (u32 n) 2147483648 then pos (u32 n) else negsuc (4294967295 - u32 n)

unfoldable pub wrap_long : ℤ → ℤ
unfolding to_long
wrap_long (pos n) = to_long n
wrap_long (negsuc n) = to_long (4294967295 - u32 n)

unfoldable pub add_long : ℤ → ℤ → ℤ
unfolding wrap_long ◌+ℤ◌
add_long (pos m) z = wrap_long (m +ℤ z)
add_long (negsuc m) (pos n) = wrap_long (n +ℤ negsuc m)
add_long (negsuc m) (negsuc n) = wrap_long (negsuc (m + suc n))

unfoldable pub seek_to : Object → ℤ → Object
seek_to o (pos n) = record o { position = u32 n }
seek_to o (negsuc n) = record o { err = ue_inval }

unfoldable pub seek_from : Object → ℤ → Origin → Object
unfolding seek_to add_long
seek_from o offset use_cur = seek_to o (add_long (to_long o.position) offset)
seek_from o offset use_set = seek_to o offset
seek_from o offset use_end = seek_to o (add_long (to_long o.file_len) offset)
seek_from o offset use_other = o

-- The `long` that is returned, -1 also where the object had an error before.
unfoldable pub report_position : Object → ℤ × Object
unfolding is_no_err to_long
report_position o = (if is_no_err o.err then to_long o.position else negsuc 0, o)

unfoldable pub seek_object : Object → ℤ → Origin → ℤ × Object
unfolding seek_from report_position
seek_object o offset origin =
    report_position
      (if o.kind == type_dir then record o { err = ue_acces } else seek_from o offset origin)
