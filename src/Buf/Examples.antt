-- ===== src/Buf/Examples.antt =====
-- The theorems on the lists of page buffers at a small cache.
use esp_uffs.Prelude.{
  ℕ, ◌+◌, ◌≡◌, ◌≢◌, refl, List, [], ◌∷◌, ◌++◌, true, false, none, some, ◌==◌, if◌then◌else◌, ◌⊎◌,
}
use esp_uffs.Prelude.Words.{u16}
use esp_uffs.Buf.{
  Buf, empty, valid, PageBufs, is_empty, first_such, buf_find, matches, buf_get, buf_clone, buf_put,
  copy_from, clone_buf_mark,
}
use esp_uffs.Buf.Order.{NoneSuch, buf_get-Found}
use esp_uffs.Buf.Clone.{buf_put-buf_clone}

abbrev page : ℕ → ℕ → Buf
page n refs = record {
  kind = 1;
  trunc_tail = false;
  parent = 3;
  serial = 7;
  page_id = n;
  mark = valid;
  ref_count = refs;
  data_len = 10;
  content = λ i. i;
}

-- Buffers 1 to 3 hold pages, 4 is for clones.
abbrev bufs : PageBufs
bufs = record {
  buf = λ p. page p (if p == 3 then 1 else 0);
  list = 1 ∷ 2 ∷ 3 ∷ [];
  clones = 4 ∷ [];
  groups = [];
  dirty_buf_max = 4;
  pg_data_size = 508;
}

moved : (buf_get bufs 3 7 2).1.list ≡ 2 ∷ 1 ∷ 3 ∷ []
unfolding buf_get buf_find first_such matches is_empty
moved = refl

buf_get-Found_example :
    let (found, s') = buf_get bufs 3 7 2 in
    let test = matches 3 7 2 in
    ((found ≡ none) × (s' ≡ bufs) × NoneSuch test bufs.buf bufs.list)
    ⊎ ((p : ℕ) × (ys zs : List ℕ) × (found ≡ some p)
        × (bufs.list ≡ ys ++ p ∷ zs)
        × (test (bufs.buf p) ≡ true)
        × NoneSuch test bufs.buf ys
        × (s'.list ≡ p ∷ ys ++ zs)
        × (s'.buf p ≡ record (bufs.buf p) { ref_count = u16 ((bufs.buf p).ref_count + 1) })
        × ((q : ℕ) → q ≢ p → s'.buf q ≡ bufs.buf q))
buf_get-Found_example = buf_get-Found bufs 3 7 2

buf_put-buf_clone_example :
    let (clone, s') = buf_clone bufs (some 2) in
    let (ret, s'') = buf_put s' clone in
    (clone ≡ some 4)
    × (s'.buf 4 ≡ record (copy_from (bufs.buf 2) (bufs.buf 4)) { ref_count = clone_buf_mark })
    × (s'.clones ≡ [])
    × (ret ≡ true)
    × (s''.clones ≡ 4 ∷ [])
    × ((s''.buf 4).ref_count ≡ 0)
    × ((s''.buf 4).mark ≡ empty)
    × ((r : ℕ) → r ≢ 4 → s''.buf r ≡ bufs.buf r)
    × (s''.list ≡ bufs.list)
    × (s''.groups ≡ [])
buf_put-buf_clone_example = buf_put-buf_clone bufs 2 4 [] refl
