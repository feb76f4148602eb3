-- ===== src/Flush/Frame.antt =====
-- src/uffs_buf.c: taking a buffer for a copy and giving it back leaves the buffers as they were.
use esp_uffs.Prelude.{
  ℕ, ◌+◌, ◌-◌, ◌<◌, ◌≤◌, ◌≡◌, ◌≢◌, refl, sym, ◌∙◌, ap, List, [], ◌∷◌, Bool, true, false, Option,
  none, some, ◌==◌, ==_iff, ◌⊎◌, inl, inr, arith, Bool-cases,
}
use esp_uffs.Prelude.Words.{u16}
use esp_uffs.Pool.Chain.{Member, Absent}
use esp_uffs.Buf.{
  Buf, PageBufs, store, remove, first_such, buf_find, buf_find_from, buf_get, hold,
  move_node_to_head, buf_put, buf_free_clone, clone_buf_mark, matches,
}
use esp_uffs.Buf.Memory.{store_self, store_ne}
use esp_uffs.DirtyBuf.{find_buf_in_dirty_list}
use esp_uffs.Flush.{clip}

pub Member-Absent : (p : ℕ) (xs : List ℕ) → Member p xs → Absent p xs → ⊥
Member-Absent p [] m a = elim m [ ]
Member-Absent p (x ∷ xs) (inl e) a = absurd (a.0 e)
Member-Absent p (x ∷ xs) (inr m) a = Member-Absent p xs m a.1

pub first_such-Member :
    (test : Buf → Bool) (buf : ℕ → Buf) (xs : List ℕ) (p : ℕ)
    → first_such test buf xs ≡ some p
    → Member p xs × (test (buf p) ≡ true)
unfolding first_such
first_such-Member test buf [] p h = cc
first_such-Member test buf (x ∷ xs) p h = elim (Bool-cases (test (buf x))) [
  | inl t ↦ let e : x ≡ p = ground arith in (inl (sym e), ap (λ q. test (buf q)) (sym e) ∙ t)
  | inr f ↦ let (m, t) = first_such-Member test buf xs p (ground (arith, f, h)) in (inr m, t)
]

pub first_such-same :
    (test : Buf → Bool) (buf buf' : ℕ → Buf) (xs : List ℕ)
    → ((q : ℕ) → Member q xs → buf' q ≡ buf q)
    → first_such test buf' xs ≡ first_such test buf xs
unfolding first_such
first_such-same test buf buf' [] same = refl
first_such-same test buf buf' (x ∷ xs) same =
    rw (same x (inl refl)) (rw (first_such-same test buf buf' xs (λ q m. same q (inr m))) refl)

pub remove-Member : (p q : ℕ) (xs : List ℕ) → Member q (remove p xs) → Member q xs
unfolding remove
remove-Member p q [] m = m
remove-Member p q (x ∷ xs) m = elim (Bool-cases (x == p)) [
  | inl t ↦ inr (rw t at m)
  | inr f ↦ elim (rw f at m) [ inl e ↦ inl e | inr l ↦ inr (remove-Member p q xs l) ]
]

-- uffs_BufGet finds nothing, or a buffer of the list that it moves and holds.
pub buf_get-cases :
    (s : PageBufs) (parent serial page_id : ℕ)
    → (buf_get s parent serial page_id ≡ (none, s))
      ⊎ ((p : ℕ) × Member p s.list
          × (matches parent serial page_id (s.buf p) ≡ true)
          × (buf_get s parent serial page_id ≡ hold s (some p)))
unfolding buf_get buf_find buf_find_from hold
buf_get-cases s parent serial page_id =
    go (first_such (matches parent serial page_id) s.buf s.list) refl
  where
    go :
        (r : Option ℕ)
        → first_such (matches parent serial page_id) s.buf s.list ≡ r
        → (hold s r ≡ (none, s))
          ⊎ ((p : ℕ) × Member p s.list
              × (matches parent serial page_id (s.buf p) ≡ true)
              × (hold s r ≡ hold s (some p)))
    go none e = inl refl
    go (some p) e = let (m, t) = first_such-Member _ s.buf s.list p e in inr (p, m, t, refl)

put_lem :
    (t : PageBufs) (p : ℕ) (b : Buf)
    → t.buf p ≡ b
    → 0 < b.ref_count
    → b.ref_count < clone_buf_mark
    → buf_put t (some p)
      ≡ (true, record t { buf = store t.buf p (record b { ref_count = b.ref_count - 1 }) })
unfolding buf_put
put_lem t p b at held few =
    let some_ref : (b.ref_count == 0) ≡ false = ground arith in
    let no_clone : (b.ref_count == clone_buf_mark) ≡ false = ground arith in
    rw at (rw some_ref (rw no_clone refl))

-- Two writes to one buffer that end with what it was.
store_back :
    (buf : ℕ → Buf) (p : ℕ) (b c d : Buf)
    → d ≡ buf p
    → (q : ℕ) → store (store (store buf p b) p c) p d q ≡ buf q
store_back buf p b c d e q = elim (Bool-cases (q == p)) [
  | inl t ↦
      let at : q ≡ p = (==_iff q p).0 t in
      ap (store (store (store buf p b) p c) p d) at
      ∙ store_self (store (store buf p b) p c) p d
      ∙ e
      ∙ ap buf (sym at)
  | inr f ↦
      let ne : q ≢ p = λ at. let h = (==_iff q p).1 at in cc in
      store_ne (store (store buf p b) p c) p d q ne
      ∙ store_ne (store buf p b) p c q ne
      ∙ store_ne buf p b q ne
]

pub clip_small : (limit n : ℕ) → n ≤ limit → clip limit n ≡ n
unfolding clip
clip_small limit n h = ground arith

-- A cached buffer is held, cut to a page, and put back.
pub hold-put :
    (s : PageBufs) (p : ℕ)
    → Member p s.list
    → (s.buf p).ref_count < 0xfffe
    → (s.buf p).data_len ≤ s.pg_data_size
    → let held = (hold s (some p)).1 in
      let b = held.buf p in
      let cut = record held {
        buf = store held.buf p (record b { data_len = clip held.pg_data_size b.data_len });
      } in
      let back = (buf_put cut (some p)).1 in
      (b ≡ record (s.buf p) { ref_count = u16 ((s.buf p).ref_count + 1) })
      × ((q : ℕ) → back.buf q ≡ s.buf q)
      × ((q : ℕ) → Member q back.list → Member q s.list)
      × (back.clones ≡ s.clones)
      × (back.groups ≡ s.groups)
      × (back.pg_data_size ≡ s.pg_data_size)
unfolding hold move_node_to_head
hold-put s p m few small =
    let b1 = record (s.buf p) { ref_count = u16 ((s.buf p).ref_count + 1) } in
    let b2 = record b1 { data_len = clip s.pg_data_size b1.data_len } in
    let b3 = record b2 { ref_count = b2.ref_count - 1 } in
    let held : PageBufs = record s { buf = store s.buf p b1; list = p ∷ remove p s.list } in
    let now : held.buf p ≡ b1 = store_self s.buf p b1 in
    let c = record (held.buf p) { data_len = clip held.pg_data_size (held.buf p).data_len } in
    let cut : PageBufs = record held { buf = store held.buf p c } in
    let at : cut.buf p ≡ b2 =
      store_self held.buf p c
      ∙ ap (λ (b : Buf). record b { data_len = clip s.pg_data_size b.data_len }) now in
    let e = ap (λ r. r.1) (put_lem cut p b2 at (omega arith) (omega arith)) in
    let length_kept = clip_small s.pg_data_size (s.buf p).data_len small in
    let ref_kept : u16 ((s.buf p).ref_count + 1) - 1 ≡ (s.buf p).ref_count = omega arith in
    let same : b3 ≡ s.buf p =
      ap (λ n. record b3 { data_len = n }) length_kept
      ∙ ap (λ n. record (s.buf p) { ref_count = n }) ref_kept in
    (
      now,
      λ q. ap (λ x. x.buf q) e ∙ store_back s.buf p b1 c b3 same q,
      λ q l. elim (let l' = rw e at l in l') [
        | inl at_p ↦ rw at_p m
        | inr later ↦ remove-Member p q s.list later
      ],
      ap (λ x. x.clones) e,
      ap (λ x. x.groups) e,
      ap (λ x. x.pg_data_size) e,
    )

-- A clone buffer that is taken and freed again, whatever is put into it.
pub buf_free_clone-back :
    (s t : PageBufs) (p : ℕ) (rest : List ℕ)
    → s.clones ≡ p ∷ rest
    → t.clones ≡ rest
    → (t.buf p).ref_count ≡ clone_buf_mark
    → ((q : ℕ) → q ≢ p → t.buf q ≡ s.buf q)
    → let back = (buf_free_clone t (some p)).1 in
      ((q : ℕ) → q ≢ p → back.buf q ≡ s.buf q)
      × (back.list ≡ t.list)
      × (back.clones ≡ s.clones)
      × (back.groups ≡ t.groups)
      × (back.pg_data_size ≡ t.pg_data_size)
unfolding buf_free_clone
buf_free_clone-back s t p rest have left mark others =
    let test : ((t.buf p).ref_count == clone_buf_mark) ≡ true = ground arith in
    rw test
      (λ q ne. store_ne t.buf p _ q ne ∙ others q ne, refl, ap (◌∷◌ p) left ∙ sym have, refl, refl)

pub find_buf_in_dirty_list-Member :
    (buf : ℕ → Buf) (page_id p : ℕ) (xs : List ℕ)
    → find_buf_in_dirty_list buf page_id xs ≡ some p
    → Member p xs × ((buf p).page_id ≡ page_id)
unfolding find_buf_in_dirty_list
find_buf_in_dirty_list-Member buf page_id p xs h =
    let (m, t) = first_such-Member (λ b. b.page_id == page_id) buf xs p h in
    (m, (==_iff _ page_id).0 t)

pub find_buf_in_dirty_list-same :
    (buf buf' : ℕ → Buf) (page_id : ℕ) (xs : List ℕ)
    → ((q : ℕ) → Member q xs → buf' q ≡ buf q)
    → find_buf_in_dirty_list buf' page_id xs ≡ find_buf_in_dirty_list buf page_id xs
unfolding find_buf_in_dirty_list
find_buf_in_dirty_list-same buf buf' page_id xs same =
    first_such-same (λ b. b.page_id == page_id) buf buf' xs same
