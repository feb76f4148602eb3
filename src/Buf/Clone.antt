-- ===== src/Buf/Clone.antt =====
-- Clone buffers of src/uffs_buf.c.
use esp_uffs.Prelude.{ℕ, ◌≡◌, ◌≢◌, refl, ◌∙◌, ap, List, ◌∷◌, true, some}
use esp_uffs.Buf.{
  Buf, empty, PageBufs, store, buf_clone, clone_into, copy_from, buf_free_clone, buf_put,
  clone_buf_mark,
}
use esp_uffs.Buf.Memory.{store_self, store_ne}

-- While there is a free clone buffer, uffs_BufClone of a buffer takes the first one and copies the
-- page into it; putting it back with uffs_BufPut succeeds, restores the list of clones, leaves the
-- clone empty and unreferenced, and all other buffers, the list and the groups are as before.
pub buf_put-buf_clone :
    (s : PageBufs) (q p : ℕ) (rest : List ℕ)
    → s.clones ≡ p ∷ rest
    → let (clone, s') = buf_clone s (some q) in
      let (ret, s'') = buf_put s' clone in
      (clone ≡ some p)
      × (s'.buf p ≡ record (copy_from (s.buf q) (s.buf p)) { ref_count = clone_buf_mark })
      × (s'.clones ≡ rest)
      × (ret ≡ true)
      × (s''.clones ≡ s.clones)
      × ((s''.buf p).ref_count ≡ 0)
      × ((s''.buf p).mark ≡ empty)
      × ((r : ℕ) → r ≢ p → s''.buf r ≡ s.buf r)
      × (s''.list ≡ s.list)
      × (s''.groups ≡ s.groups)
unfolding buf_clone clone_into buf_put buf_free_clone
buf_put-buf_clone s q p rest have =
    let c = record (copy_from (s.buf q) (s.buf p)) { ref_count = clone_buf_mark } in
    let buf' = store s.buf p c in
    let at = store_self s.buf p c in
    let marked : (buf' p).ref_count ≡ clone_buf_mark = ap (λ (b : Buf). b.ref_count) at in
    let d = record (buf' p) { ref_count = 0; mark = empty } in
    rw (have, marked)
      (
        refl,
        at,
        refl,
        refl,
        refl,
        ap (λ (b : Buf). b.ref_count) (store_self buf' p d),
        ap (λ (b : Buf). b.mark) (store_self buf' p d),
        (λ r ne. store_ne buf' p d r ne ∙ store_ne s.buf p c r ne),
        refl,
        refl,
      )
