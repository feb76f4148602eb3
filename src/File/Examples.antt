-- ===== src/File/Examples.antt =====
-- Reading a small file whose bytes are their offsets: three pages in the block of the file, two in a data
-- block.
use esp_uffs.Prelude.{
  ℕ, ◌+◌, ◌-◌, ◌*◌, ◌%◌, ◌<◌, ◌≤◌, ◌≡◌, refl, true, false, some, ◌==◌, ◌⊎◌, if◌then◌else◌, arith,
}
use esp_uffs.TagStore.{slice}
use esp_uffs.Flash.{Bytes}
use esp_uffs.Buf.{Buf, valid}
use esp_uffs.Public.{type_file}
use esp_uffs.File.{
  Object, PageCalls, ue_no_err, get_fdn_by_ofs, page_id_of_ofs, get_start_of_data_block,
  read_object,
}
use esp_uffs.File.Place.{Fits, IsPlace, page_id_of_ofs-IsPlace}
use esp_uffs.MountTable.{pos, negsuc, ◌+ℤ◌}
use esp_uffs.File.{seek_object, use_end}
use esp_uffs.File.Seek.{read_object-seek_object}
use esp_uffs.File.Page.{IsIntact}
use esp_uffs.File.Read.{read_object-slice}

abbrev object : Object
object = record {
  is_open = true;
  kind = type_file;
  oflag = 0;
  head_pages = 3;
  pg_data_size = 4;
  pages_per_block = 4;
  file_len = 20;
  position = 9;
  err = ue_no_err;
}

abbrev text : Bytes
text = λ k. k

abbrev page_start : ℕ → ℕ → ℕ
page_start fdn page = if fdn == 0 then (page - 1) * 4 else 12 + (fdn - 1) * 16 + page * 4

abbrev page_buf : ℕ → ℕ → Buf
page_buf fdn page = record {
  kind = 1;
  trunc_tail = false;
  parent = 0;
  serial = 5;
  page_id = page;
  mark = valid;
  ref_count = 1;
  data_len = 4;
  content = λ k. text (page_start fdn page + k);
}

abbrev calls : PageCalls (Unit {0})
calls = record {
  has_data_node = λ d fdn. true;
  buf_get_ex = λ d fdn page. (some (page_buf fdn page), d);
  buf_put = λ d. d;
  recover = λ d. d;
}

abbrev Holds : Unit {0} → Type 0
Holds d = Unit {0}

starts :
    (x : ℕ) → x < 20 → page_start (get_fdn_by_ofs object x) (page_id_of_ofs object x) + x % 4 ≡ x
unfolding get_fdn_by_ofs page_id_of_ofs get_start_of_data_block
starts x lt = ground arith

intact : IsIntact calls object Holds text
intact = record {
  node = λ d x h lt. ground arith;
  page = λ d x h lt. (
    page_buf (get_fdn_by_ofs object x) (page_id_of_ofs object x),
    refl,
    tt,
    omega arith,
    omega arith,
    omega arith,
    (λ j le. let s = starts x lt in omega arith),
  );
}

read_object-slice_example :
    let (count, bytes, o', dev') = read_object calls object 6 tt in
    (bytes ≡ slice text 9 count)
    × (count ≤ 6)
    × (9 + count ≤ 20)
    × ((count ≡ 6) ⊎ (9 + count ≡ 20))
    × (o' ≡ record object { position = 9 + count })
read_object-slice_example =
    read_object-slice calls object Holds text 6 tt intact tt refl refl refl (omega arith)
      (omega arith)

object-Fits : Fits object
object-Fits = record {
  some_data = omega arith;
  some_pages = omega arith;
  head = omega arith;
  pages = omega arith;
  head_bytes = omega arith;
}

-- Offset 18 is byte 2 of page 1 of the first data block.
page_id_of_ofs-IsPlace_example :
    IsPlace object 18
      (get_fdn_by_ofs object 18)
      (page_id_of_ofs object 18)
      (get_start_of_data_block object (get_fdn_by_ofs object 18))
page_id_of_ofs-IsPlace_example =
    page_id_of_ofs-IsPlace object 18 object-Fits (omega arith) (omega arith)

second_page : page_id_of_ofs object 18 ≡ 1
unfolding page_id_of_ofs get_fdn_by_ofs get_start_of_data_block
second_page = refl

-- Six bytes from the fourth byte before the end.
read_object-seek_object_example :
    let (at, moved) = seek_object object (negsuc 3) use_end in
    let (count, bytes, o', dev') = read_object calls moved 6 tt in
    (at ≡ pos 16)
    × (bytes ≡ slice text 16 count)
    × (count ≤ 6)
    × ((count ≡ 6) ⊎ (16 + count ≡ 20))
    × (o' ≡ record object { position = 16 + count })
read_object-seek_object_example =
    read_object-seek_object calls object Holds text (negsuc 3) use_end 16 6 tt intact tt refl refl
      refl refl (omega arith) (omega arith) (unfold ◌+ℤ◌ in refl) (omega arith) (omega arith)
