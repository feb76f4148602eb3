-- ===== src/DirtyBuf/Content.antt =====
-- What is written to a page buffer of src/uffs_buf.c is read back.
use esp_uffs.Prelude.{
  ℕ, zero, suc, ◌+◌, ◌<◌, ◌≤◌, ◌≡◌, ◌≢◌, refl, ◌∙◌, ap, ap₂, List, [], ◌∷◌, true, false, Option,
  some, ltb, leb, if◌then◌else◌, ◌⊎◌, inl, inr, arith, Bool-cases,
}
use esp_uffs.Prelude.Words.{u32}
use esp_uffs.Flash.{Bytes, memcpy}
use esp_uffs.TagStore.{slice}
use esp_uffs.Buf.{dirty, Buf, DirtyGroup, PageBufs, store}
use esp_uffs.Buf.Memory.{store_self, store_ne, store_same}
use esp_uffs.DirtyBuf.{
  link_once, flush_if_full, Flush, take_slot, group_at, is_in, link_to_dirty_list, write_content,
  write_buf, write_in_slot, buf_write, buf_read, read_size, change_group,
}

slice-memcpy :
    (dst src : Bytes) (at from n k m : ℕ)
    → k + m ≤ n
    → slice (memcpy dst at src from n) (at + k) m ≡ slice src (from + k) m
unfolding slice
slice-memcpy dst src at from n k zero h = refl
slice-memcpy dst src at from n k (suc m) h = ap₂ ◌∷◌ (unfold memcpy in ground arith) (
    ap (λ a. slice (memcpy dst at src from n) a m) (omega arith)
    ∙ slice-memcpy dst src at from n (k + 1) m (omega arith)
    ∙ ap (λ a. slice src a m) (omega arith))

-- What linking a buffer to a dirty list leaves alone.
record IsLinked (s s' : PageBufs) (slot p : ℕ) : Type 0 where
  content : (q : ℕ) → (s'.buf q).content ≡ (s.buf q).content
  data_len : (q : ℕ) → (s'.buf q).data_len ≡ (s.buf q).data_len
  others : (q : ℕ) → q ≢ p → s'.buf q ≡ s.buf q
  count : (group_at slot s'.groups).count ≤ (group_at slot s.groups).count + 1
  dirty_buf_max : s'.dirty_buf_max ≡ s.dirty_buf_max
  pg_data_size : s'.pg_data_size ≡ s.pg_data_size

count-change_group :
    (slot p : ℕ) (gs : List DirtyGroup)
    → (group_at slot
        (change_group (λ g. record g { dirty = p ∷ g.dirty; count = g.count + 1 }) slot gs)).count
      ≤ (group_at slot gs).count + 1
unfolding group_at change_group
count-change_group slot p [] = omega arith
count-change_group zero p (g ∷ rest) = omega arith
count-change_group (suc slot) p (g ∷ rest) = count-change_group slot p rest

link-IsLinked : (s : PageBufs) (slot p : ℕ) → IsLinked s (link_to_dirty_list s slot p) slot p
unfolding link_to_dirty_list
link-IsLinked s slot p = record {
  content = λ q. store_same (λ b. b.content) s.buf p (record (s.buf p) { mark = dirty }) q refl;
  data_len = λ q. store_same (λ b. b.data_len) s.buf p (record (s.buf p) { mark = dirty }) q refl;
  others = λ q ne. store_ne s.buf p (record (s.buf p) { mark = dirty }) q ne;
  count = count-change_group slot p s.groups;
  dirty_buf_max = refl;
  pg_data_size = refl;
}

link_once-IsLinked : (s : PageBufs) (slot p : ℕ) → IsLinked s (link_once s slot p) slot p
unfolding link_once
link_once-IsLinked s slot p = elim (Bool-cases (is_in p (group_at slot s.groups).dirty)) [
  | inl old ↦ rw old (record {
    content = λ q. refl;
    data_len = λ q. refl;
    others = λ q ne. refl;
    count = omega arith;
    dirty_buf_max = refl;
    pg_data_size = refl;
  })
  | inr new ↦ rw new (link-IsLinked s slot p)
]

-- With room for one more dirty buffer nothing is flushed.
pub written :
    (flush : Flush) (s : PageBufs) (p : ℕ) (bytes : Option Bytes) (ofs len slot : ℕ)
    → (group_at slot s.groups).count + 1 < s.dirty_buf_max
    → let w = write_buf (s.buf p) bytes ofs len in
      let t = record s { buf = store s.buf p w } in
      write_in_slot flush s p bytes ofs len (some slot) ≡ (true, link_once t slot p)
unfolding write_in_slot
written flush s p bytes ofs len slot room =
    let w = write_buf (s.buf p) bytes ofs len in
    let t = record s { buf = store s.buf p w } in
    let k = link_once-IsLinked t slot p in
    let s' = link_once t slot p in
    let spare_room : leb s'.dirty_buf_max (group_at slot s'.groups).count ≡ false =
      ground (arith, k.count, k.dirty_buf_max) in
    unfold flush_if_full in rw spare_room refl

read_size-fit : (size ofs len : ℕ) → ofs + len ≤ size → size < 65536 → read_size size ofs len ≡ len
unfolding read_size
read_size-fit size ofs len h small = ground arith

-- When a slot is found without a flush, the group stays below its limit and the range lies in the
-- page (of fewer than 65536 bytes), uffs_BufWrite succeeds, uffs_BufRead of the same range gives
-- the written bytes, the other bytes of the buffer and all other buffers are unchanged, and
-- data_len grows to the end of the range.
pub buf_read-buf_write :
    (flush : Flush) (s : PageBufs) (p : ℕ) (bytes : Bytes) (ofs len slot : ℕ)
    → take_slot flush s (s.buf p).parent (s.buf p).serial ≡ (some slot, s)
    → (group_at slot s.groups).count + 1 < s.dirty_buf_max
    → ofs + len ≤ s.pg_data_size
    → s.pg_data_size < 65536
    → let (ret, s') = buf_write flush s p (some bytes) ofs len in
      (ret ≡ true)
      × (buf_read s' p ofs len ≡ slice bytes 0 len)
      × ((i : ℕ) → (i < ofs) ⊎ (ofs + len ≤ i) → (s'.buf p).content i ≡ (s.buf p).content i)
      × ((s'.buf p).data_len
          ≡ (if ltb (s.buf p).data_len (ofs + len) then ofs + len else (s.buf p).data_len))
      × ((q : ℕ) → q ≢ p → s'.buf q ≡ s.buf q)
unfolding buf_write buf_read
buf_read-buf_write flush s p bytes ofs len slot taken room fit small =
    let w = write_buf (s.buf p) (some bytes) ofs len in
    let t = record s { buf = store s.buf p w } in
    let k = link_once-IsLinked t slot p in
    let s' = link_once t slot p in
    let in_page : ltb s.pg_data_size (u32 (ofs + len)) ≡ false = ground arith in
    let call = written flush s p (some bytes) ofs len slot room in
    let content : (s'.buf p).content ≡ memcpy (s.buf p).content ofs bytes 0 len =
      k.content p
      ∙ ap (λ (b : Buf). b.content) (store_self s.buf p w)
      ∙ (unfold write_buf write_content in refl) in
    let data_len : (s'.buf p).data_len ≡ w.data_len =
      k.data_len p ∙ ap (λ (b : Buf). b.data_len) (store_self s.buf p w) in
    let same = k.pg_data_size in
    let size : read_size s'.pg_data_size ofs len ≡ len =
      ap (λ n. read_size n ofs len) same ∙ read_size-fit s.pg_data_size ofs len fit small in
    rw (taken, in_page, call)
      (
        refl,
        ap₂ (λ (c : Bytes) (n : ℕ). slice c ofs n) content size
            ∙ ap (λ a. slice (memcpy (s.buf p).content ofs bytes 0 len) a len) (omega arith)
            ∙ slice-memcpy (s.buf p).content bytes ofs 0 len 0 len (omega arith)
            ∙ ap (λ a. slice bytes a len) (omega arith),
        (λ i out. ap (λ (c : Bytes). c i) content ∙ (unfold memcpy in ground arith)),
        data_len ∙ (unfold write_buf in ground arith),
        (λ q ne. k.others q ne ∙ store_ne s.buf p w q ne),
      )
