-- ===== src/Flush/Room.antt =====
-- src/uffs_buf.c: the free pages of a block of which every tag was read, and buffers that leave a dirty
-- list, for the flush to free pages.
use esp_uffs.Prelude.{
  ℕ, zero, suc, ◌+◌, ◌<◌, ◌≤◌, ◌≡◌, ◌≢◌, refl, sym, ◌∙◌, ap, ap₂, subst, List, [], ◌∷◌, Bool, true,
  false, ◌==◌, ==_iff, ◌⊎◌, inl, inr, arith, Bool-cases, if◌then◌else◌, get_or, set, get_or-set_ne,
}
use esp_uffs.Pool.Chain.{Member, Absent}
use esp_uffs.BlockInfo.{Tags, PageSpare, BlockInfo, ReadTag, all_pages}
use esp_uffs.Public.{Loaded, load, get_tag, get_first_block_time_stamp}
use esp_uffs.Public.Erased.{is_page_erased, tag_is_dirty, get_block_time_stamp, is_this_block_used}
use esp_uffs.Public.Spares.{spare_at, no_spare, is_free_spare, is_page_erased-is_free_spare}
use esp_uffs.Public.Free.{is_free, free_among}
use esp_uffs.Public.Again.{IsRead, load-again}
use esp_uffs.Buf.{valid, Buf, PageBufs, store, remove, move_node_to_head}
use esp_uffs.Buf.Memory.{store_self, store_ne}
use esp_uffs.DirtyBuf.{group_at, break_from_dirty}
use esp_uffs.DirtyBuf.Marks.{Owned, IsMarked}
use esp_uffs.DirtyBuf.Change.{Owned-Member, break_from_dirty-IsMarked}
use esp_uffs.Flush.{put_tag}
use esp_uffs.Flush.Free.{erased_loop, set_valid, release}

is_page_erased-again :
    (read_tag : ReadTag) (page : ℕ) (s : Loaded)
    → page < all_pages
    → (spare_at s.bc page).expired ≡ false
    → is_page_erased read_tag page s ≡ (is_free s.bc page, s)
is_page_erased-again read_tag page s small f =
    let r = is_page_erased read_tag page s in
    let same : r.1 ≡ s = unfold is_page_erased load in load-again read_tag s page small f in
    let told = is_page_erased-is_free_spare read_tag page s small in
    let first = told ∙ ap (λ (l : Loaded). is_free l.bc page) same in ap₂ (λ a b. (a, b)) first same

-- The time stamp of a block whose first tag was read.
unfoldable pub stamp_of : BlockInfo → ℕ
stamp_of bc =
    if tag_is_dirty (get_tag bc 0) then (get_tag bc 0).block_ts else get_first_block_time_stamp

pub get_block_time_stamp-again :
    (read_tag : ReadTag) (s : Loaded)
    → (spare_at s.bc 0).expired ≡ false
    → get_block_time_stamp read_tag s ≡ (stamp_of s.bc, s)
unfolding get_block_time_stamp is_this_block_used stamp_of
get_block_time_stamp-again read_tag s f = rw (load-again read_tag s 0 (omega arith) f) (
    rw (load-again read_tag s 0 (omega arith) f)
      (elim (Bool-cases (tag_is_dirty (get_tag s.bc 0))) [ inl t ↦ rw t refl | inr n ↦ rw n refl ]))

-- The free pages from `page` on, `rounds` pages in all.
unfoldable pub room : BlockInfo → ℕ → ℕ → ℕ
room bc page zero = 0
room bc page (suc rounds) = (if is_free bc page then 1 else 0) + room bc (page + 1) rounds

free_among-low :
    (bc : BlockInfo) (low n : ℕ)
    → free_among bc low (suc n) ≡ (if is_free bc low then 1 else 0) + free_among bc (low + 1) n
unfolding free_among
free_among-low bc low zero = let e : low + 0 ≡ low = omega arith in rw e (omega arith)
free_among-low bc low (suc n) =
    let e : low + suc n ≡ low + 1 + n = omega arith in
    let rest = free_among-low bc low n in
    ap₂ (λ a b. a + (if is_free bc b then 1 else 0)) rest e ∙ omega arith

pub room-free_among :
    (bc : BlockInfo) (page rounds : ℕ) → room bc page rounds ≡ free_among bc page rounds
unfolding room
room-free_among bc page zero = unfold free_among in refl
room-free_among bc page (suc rounds) =
    ap (λ x. (if is_free bc page then 1 else 0) + x) (room-free_among bc (page + 1) rounds)
    ∙ sym (free_among-low bc page rounds)

pub room_same :
    (bc bc' : BlockInfo) (page rounds : ℕ)
    → ((j : ℕ) → page ≤ j → spare_at bc' j ≡ spare_at bc j)
    → room bc' page rounds ≡ room bc page rounds
unfolding room
room_same bc bc' page zero h = refl
room_same bc bc' page (suc rounds) h =
    ap₂ (λ (a : PageSpare) b. (if is_free_spare a then 1 else 0) + b) (h page (omega arith))
      (room_same bc bc' (page + 1) rounds (λ j le. h j (omega arith)))

-- A search that finds a free page, and the room behind it.
abbrev pub FoundFree : ℕ → ℕ → Loaded → ℕ × Loaded → Type 0
FoundFree page rounds s r =
    (r.1 ≡ s)
    × (page ≤ r.0)
    × (is_free s.bc (r.0) ≡ true)
    × ((left : ℕ) × (r.0 + 1 + left ≡ page + rounds)
        × (room s.bc (r.0 + 1) left + 1 ≡ room s.bc page rounds))

pub erased_loop-FoundFree :
    (read_tag : ReadTag) (pages rounds page : ℕ) (s : Loaded)
    → IsRead pages s.bc
    → pages ≤ all_pages
    → page + rounds ≡ pages
    → 0 < room s.bc page rounds
    → FoundFree page rounds s (erased_loop read_tag rounds page s)
unfolding erased_loop room
erased_loop-FoundFree read_tag pages zero page s v small fits some_room = absurd (omega arith)
erased_loop-FoundFree read_tag pages (suc rounds) page s v small fits some_room =
    rw (is_page_erased-again read_tag page s (omega arith) (v page (omega arith)))
      (elim (Bool-cases (is_free s.bc page)) [
        | inl t ↦ rw t (refl, omega arith, t, (rounds, omega arith, omega arith))
        | inr f ↦
            let rest : 0 < 0 + room s.bc (page + 1) rounds = rw f at some_room in
            let less : 0 < room s.bc (page + 1) rounds = omega arith in
            let (same, le, free, (left, e, count)) =
              erased_loop-FoundFree read_tag pages rounds (page + 1) s v small (omega arith) less in
            rw f (same, omega arith, free, (left, omega arith, omega arith))
      ])

-- A tag that is put into the cache leaves the other pages alone, and a page stays read.
pub spare_at-put_tag :
    (bc : BlockInfo) (page : ℕ) (tag : Tags) (j : ℕ)
    → j ≢ page
    → spare_at (put_tag bc page tag) j ≡ spare_at bc j
unfolding spare_at put_tag
spare_at-put_tag bc page tag j ne = get_or-set_ne bc.spares page j _ _ (λ e. ne (sym e))

still_read :
    (xs : List PageSpare) (page j : ℕ) (tag : Tags)
    → (get_or xs j no_spare).expired ≡ false
    → (get_or (set xs page (record (get_or xs page no_spare) { tag = tag })) j no_spare).expired
      ≡ false
still_read [] page j tag h = h
still_read (x ∷ xs) zero zero tag h = h
still_read (x ∷ xs) zero (suc j) tag h = h
still_read (x ∷ xs) (suc page) zero tag h = h
still_read (x ∷ xs) (suc page) (suc j) tag h = still_read xs page j tag h

pub put_tag-IsRead :
    (pages : ℕ) (bc : BlockInfo) (page : ℕ) (tag : Tags)
    → IsRead pages bc
    → IsRead pages (put_tag bc page tag)
unfolding spare_at put_tag
put_tag-IsRead pages bc page tag v j lt = still_read bc.spares page j tag (v j lt)

pub Member-remove : (p q : ℕ) (xs : List ℕ) → q ≢ p → Member q xs → Member q (remove p xs)
unfolding remove
Member-remove p q [] ne m = elim m [ ]
Member-remove p q (x ∷ xs) ne m = elim (Bool-cases (x == p)) [
  | inl t ↦ rw t (elim m [ inl e ↦ absurd (ne (e ∙ (==_iff x p).0 t)) | inr n ↦ n ])
  | inr f ↦ rw f (elim m [ inl e ↦ inl e | inr n ↦ inr (Member-remove p q xs ne n) ])
]

Owned-store :
    (buf : ℕ → Buf) (a b p : ℕ) (x : Buf) (ps : List ℕ)
    → Absent p ps
    → Owned buf a b ps
    → Owned (store buf p x) a b ps
Owned-store buf a b p x [] out o = tt
Owned-store buf a b p x (q ∷ rest) out o =
    rw (store_ne buf p x q (λ e. out.0 (sym e)))
      (o.0, o.1, o.2, Owned-store buf a b p x rest out.1 o.3)

-- What stands in one dirty list stands in no other.
listed_or_not : (p : ℕ) (ps : List ℕ) → Member p ps ⊎ Absent p ps
listed_or_not p [] = inr tt
listed_or_not p (q ∷ rest) = elim (Bool-cases (p == q)) [
  | inl t ↦ inl (inl ((==_iff p q).0 t))
  | inr f ↦ elim (listed_or_not p rest) [
    | inl m ↦ inl (inr m)
    | inr out ↦ inr ((λ e. let h = (==_iff p q).1 e in cc), out)
  ]
]

other_group :
    (s : PageBufs) (parent serial : ℕ → ℕ) (slot p j : ℕ)
    → IsMarked s parent serial
    → Member p (group_at slot s.groups).dirty
    → j ≢ slot
    → Absent p (group_at j s.groups).dirty
other_group s parent serial slot p j v m ne = elim (listed_or_not p (group_at j s.groups).dirty) [
  | inr out ↦ out
  | inl n ↦
      let a = Owned-Member s.buf (parent slot) (serial slot) p _ (v.owned slot) m in
      let b = Owned-Member s.buf (parent j) (serial j) p _ (v.owned j) n in
      absurd (ne (v.apart j slot b.3 a.3 (sym b.1 ∙ a.1) (sym b.2 ∙ a.2)))
]

-- A listed buffer is released: it leaves its list and is valid; all else stays.
abbrev pub Released : PageBufs → (ℕ → ℕ) → (ℕ → ℕ) → ℕ → ℕ → PageBufs → Type 0
Released s parent serial slot p t =
    IsMarked t parent serial
    × ((group_at slot t.groups).dirty ≡ remove p (group_at slot s.groups).dirty)
    × ((group_at slot t.groups).count + 1 ≡ (group_at slot s.groups).count)
    × ((j : ℕ) → j ≢ slot → group_at j t.groups ≡ group_at j s.groups)
    × (t.buf p ≡ record (s.buf p) { mark = valid })
    × ((q : ℕ) → q ≢ p → t.buf q ≡ s.buf q)

set_valid-done :
    (r : Bool × PageBufs) (p : ℕ) → r.0 ≡ true → set_valid r p ≡ set_valid (true, r.1) p
set_valid-done (true, s) p e = refl
set_valid-done (false, s) p e = cc

pub release-Released :
    (s : PageBufs) (parent serial : ℕ → ℕ) (slot p : ℕ)
    → IsMarked s parent serial
    → Member p (group_at slot s.groups).dirty
    → Released s parent serial slot p (release s p)
release-Released s parent serial slot p v m =
    let (done, v', listed, gone, count, others, same) =
      break_from_dirty-IsMarked s parent serial slot p v m in
    let t = (break_from_dirty s p).1 in
    let out : (j : ℕ) → Absent p (group_at j t.groups).dirty = λ j. elim (Bool-cases (j == slot)) [
      | inl e ↦ subst (λ k. Absent p (group_at k t.groups).dirty) (sym ((==_iff j slot).0 e)) gone
      | inr e ↦
          let ne : j ≢ slot = ground arith in
          subst (λ g. Absent p g.dirty) (sym (others j ne))
            (other_group s parent serial slot p j v m ne)
    ] in
    let same_set : release s p ≡ set_valid (true, t) p =
      unfold release in set_valid-done (break_from_dirty s p) p done in
    subst (λ u. Released s parent serial slot p u) (sym same_set)
      (unfold set_valid move_node_to_head in
        (
          record {
            owned = λ j. Owned-store t.buf (parent j) (serial j) p _ _ (out j) (v'.owned j);
            counted = v'.counted;
            distinct = v'.distinct;
            apart = v'.apart;
          },
          listed,
          count,
          others,
          store_self t.buf p _ ∙ ap (λ (b : Buf). record b { mark = valid }) (same p),
          (λ q ne. store_ne t.buf p _ q ne ∙ same q),
        ))
