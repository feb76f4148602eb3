-- ===== src/DirtyBuf/Examples.antt =====
-- The theorems on dirty buffers at a cache with two groups.
use esp_uffs.Prelude.{
  ℕ, zero, suc, ◌+◌, ◌≡◌, ◌≢◌, ◌<◌, ◌≤◌, refl, [], ◌∷◌, true, false, some, ltb, if◌then◌else◌, ◌⊎◌,
  inl, inr, arith, length,
}
use esp_uffs.Pool.Chain.{Member, Absent, Distinct}
use esp_uffs.Flash.{Bytes}
use esp_uffs.TagStore.{slice}
use esp_uffs.Buf.{Buf, Mark, valid, dirty, PageBufs, remove}
use esp_uffs.DirtyBuf.{
  Flush, take_slot, buf_find_group_slot, buf_find_free_group_slot, group_at, break_from_dirty,
  buf_write, buf_read, no_dirty,
}
use esp_uffs.DirtyBuf.Marks.{Owned, IsMarked}
use esp_uffs.DirtyBuf.Change.{break_from_dirty-IsMarked}
use esp_uffs.DirtyBuf.Content.{buf_read-buf_write}
use esp_uffs.DirtyBuf.Write.{buf_write-IsMarked}

abbrev page : ℕ → Mark → Buf
page n mark = record {
  kind = 1;
  trunc_tail = false;
  parent = 3;
  serial = 7;
  page_id = n;
  mark = mark;
  ref_count = 0;
  data_len = 10;
  content = λ i. i;
}

-- Pages 1 and 2 of file 7 are dirty, page 3 is not. The second group is free.
abbrev bufs : PageBufs
bufs = record {
  buf = λ p. page p (if ltb p 3 then dirty else valid);
  list = 1 ∷ 2 ∷ 3 ∷ [];
  clones = [];
  groups =
      record { dirty = 2 ∷ 1 ∷ []; count = 2; lock = 0 }
      ∷ record { dirty = []; count = 0; lock = 0 }
      ∷ [];
  dirty_buf_max = 4;
  pg_data_size = 508;
}

abbrev parent : ℕ → ℕ
parent slot = 3

abbrev serial : ℕ → ℕ
serial slot = 7

one_busy : (i : ℕ) → no_dirty (group_at i bufs.groups).dirty ≡ false → i ≡ 0
unfolding group_at no_dirty
one_busy zero h = refl
one_busy (suc zero) h = cc
one_busy (suc (suc i)) h = cc

all-Owned :
    (slot : ℕ) → Owned bufs.buf (parent slot) (serial slot) (group_at slot bufs.groups).dirty
unfolding group_at
all-Owned zero = (refl, refl, refl, (refl, refl, refl, tt))
all-Owned (suc zero) = tt
all-Owned (suc (suc slot)) = tt

all_counted :
    (slot : ℕ) → (group_at slot bufs.groups).count ≡ length (group_at slot bufs.groups).dirty
unfolding group_at
all_counted zero = refl
all_counted (suc zero) = refl
all_counted (suc (suc slot)) = refl

all-Distinct : (slot : ℕ) → Distinct (group_at slot bufs.groups).dirty
unfolding group_at
all-Distinct zero = (((omega arith), tt), (tt, tt))
all-Distinct (suc zero) = tt
all-Distinct (suc (suc slot)) = tt

bufs-IsMarked : IsMarked bufs parent serial
unfolding group_at
bufs-IsMarked = record {
  owned = all-Owned;
  counted = all_counted;
  distinct = all-Distinct;
  apart = λ i j hi hj e f. omega (arith, one_busy i hi, one_busy j hj);
}

abbrev no_flush : Flush
no_flush s slot = (false, s)

abbrev text : Bytes
text = λ i. 50 + i

break_from_dirty-IsMarked_example :
    let (ret, s') = break_from_dirty bufs 1 in
    (ret ≡ true)
    × IsMarked s' parent serial
    × ((group_at 0 s'.groups).dirty ≡ remove 1 (group_at 0 bufs.groups).dirty)
    × Absent 1 (group_at 0 s'.groups).dirty
    × ((group_at 0 s'.groups).count + 1 ≡ (group_at 0 bufs.groups).count)
    × ((j : ℕ) → j ≢ 0 → group_at j s'.groups ≡ group_at j bufs.groups)
    × ((q : ℕ) → s'.buf q ≡ bufs.buf q)
break_from_dirty-IsMarked_example =
    break_from_dirty-IsMarked bufs parent serial 0 1 bufs-IsMarked
      (unfold group_at in inr (inl refl))

buf_read-buf_write_example :
    let (ret, s') = buf_write no_flush bufs 3 (some text) 100 5 in
    (ret ≡ true)
    × (buf_read s' 3 100 5 ≡ slice text 0 5)
    × ((i : ℕ) → (i < 100) ⊎ (105 ≤ i) → (s'.buf 3).content i ≡ (bufs.buf 3).content i)
    × ((s'.buf 3).data_len ≡ 105)
    × ((q : ℕ) → q ≢ 3 → s'.buf q ≡ bufs.buf q)
unfolding take_slot buf_find_group_slot buf_find_free_group_slot group_at
buf_read-buf_write_example =
    buf_read-buf_write no_flush bufs 3 text 100 5 0 refl (omega arith) (omega arith) (omega arith)

buf_write-IsMarked_example :
    let (ret, s') = buf_write no_flush bufs 3 (some text) 100 5 in
    (ret ≡ true)
    × ((parent' serial' : ℕ → ℕ) × IsMarked s' parent' serial')
    × Member 3 (group_at 0 s'.groups).dirty
unfolding buf_find_group_slot group_at
buf_write-IsMarked_example =
    buf_write-IsMarked no_flush bufs parent serial 3 (some text) 100 5 0 bufs-IsMarked (inl refl)
      (omega arith) (omega arith) (omega arith)
