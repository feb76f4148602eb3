-- ===== src/DirtyBuf/Write.antt =====
-- A write to a page buffer of src/uffs_buf.c keeps the dirty lists right.
use esp_uffs.Prelude.{
  ℕ, ◌+◌, ◌<◌, ◌≤◌, ◌≡◌, refl, sym, ◌∙◌, subst, List, [], ◌∷◌, true, false, Option, none, some, ltb,
  ◌==◌, ==_iff, length, ◌⊎◌, inl, inr, arith, Bool-cases, write,
}
use esp_uffs.Prelude.Words.{u32}
use esp_uffs.Pool.Chain.{Member}
use esp_uffs.Flash.{Bytes}
use esp_uffs.Buf.{DirtyGroup, PageBufs, store}
use esp_uffs.Buf.Memory.{store_same}
use esp_uffs.DirtyBuf.{
  Flush, no_dirty, group_at, group_of, buf_find_group_slot, buf_find_free_group_slot, is_in,
  link_once, link_to_dirty_list, write_buf, take_slot, or_free_slot, buf_write,
}
use esp_uffs.DirtyBuf.Slots.{slot_such_sound, slot_such-none}
use esp_uffs.DirtyBuf.Marks.{
  IsMarked, in_range, owner-group_of, group_of-owner, group_at-change_group,
}
use esp_uffs.DirtyBuf.Content.{written}
use esp_uffs.DirtyBuf.Link.{Owned-same, is_in-Absent, link-IsMarked}

-- There is a slot for the page without a flush: that of its owner, or a free one.
abbrev pub HasSlot : PageBufs → ℕ → ℕ → ℕ → Type 0
HasSlot s parent serial slot =
    (buf_find_group_slot s parent serial ≡ some slot)
    ⊎ ((buf_find_group_slot s parent serial ≡ none) × (buf_find_free_group_slot s ≡ some slot))

pub take_slot-HasSlot :
    (flush : Flush) (s : PageBufs) (parent serial slot : ℕ)
    → HasSlot s parent serial slot
    → take_slot flush s parent serial ≡ (some slot, s)
unfolding take_slot or_free_slot
take_slot-HasSlot flush s parent serial slot (inl h) = rw h refl
take_slot-HasSlot flush s parent serial slot (inr h) = rw (h.0, h.1) refl

-- A slot that fits: it holds pages of the owner or none, and no other slot holds pages of the owner.
record IsFitting (groups : List DirtyGroup) (parent serial : ℕ → ℕ) (a b slot : ℕ) : Type 0 where
  range : slot < length groups
  own : no_dirty (group_at slot groups).dirty ≡ false → (parent slot ≡ a) × (serial slot ≡ b)
  only :
      (j : ℕ) → no_dirty (group_at j groups).dirty ≡ false → parent j ≡ a → serial j ≡ b → j ≡ slot

HasSlot-IsFitting :
    (s : PageBufs) (parent serial : ℕ → ℕ) (a b slot : ℕ)
    → IsMarked s parent serial
    → HasSlot s a b slot
    → IsFitting s.groups parent serial a b slot
unfolding buf_find_group_slot buf_find_free_group_slot
HasSlot-IsFitting s parent serial a b slot v (inl h) =
    let (j, e, lt, test) = slot_such_sound (λ g. group_of s.buf a b g.dirty) 0 slot s.groups h in
    let at : j ≡ slot = omega arith in
    let test' = subst (λ k. group_of s.buf a b (group_at k s.groups).dirty ≡ true) at test in
    let owner =
      owner-group_of s.buf (parent slot) (serial slot) a b (group_at slot s.groups).dirty
        (v.owned slot) test' in
    record {
      range = omega arith;
      own = λ nonempty. (owner.1, owner.2);
      only = λ k nonempty f g. v.apart k slot nonempty owner.0 (f ∙ sym owner.1) (g ∙ sym owner.2);
    }
HasSlot-IsFitting s parent serial a b slot v (inr h) =
    let (j, e, lt, test) = slot_such_sound (λ g. no_dirty g.dirty) 0 slot s.groups h.1 in
    let at : j ≡ slot = omega arith in
    let free = subst (λ k. no_dirty (group_at k s.groups).dirty ≡ true) at test in
    record {
      range = omega arith;
      own = λ nonempty. let clash = sym free ∙ nonempty in cc;
      only = λ k nonempty f g.
          let found =
            group_of-owner s.buf (parent k) (serial k) (group_at k s.groups).dirty (v.owned k)
              nonempty in
          let found' =
            subst (λ x. group_of s.buf x b (group_at k s.groups).dirty ≡ true) f
              (subst (λ y. group_of s.buf (parent k) y (group_at k s.groups).dirty ≡ true) g
                found) in
          let not_found =
            slot_such-none (λ g'. group_of s.buf a b g'.dirty) 0 s.groups k h.0
              (in_range k s.groups nonempty) in
          let clash = sym found' ∙ not_found in cc;
    }

is_in-Member : (p : ℕ) (ps : List ℕ) → is_in p ps ≡ true → Member p ps
unfolding is_in
is_in-Member p [] h = cc
is_in-Member p (q ∷ rest) h = elim (Bool-cases (q == p)) [
  | inl e ↦ inl (sym ((==_iff q p).0 e))
  | inr e ↦ inr (is_in-Member p rest (rw e at h))
]

-- The lists after the contents of a buffer were written.
content-IsMarked :
    (s : PageBufs) (parent serial : ℕ → ℕ) (p : ℕ) (bytes : Option Bytes) (ofs len : ℕ)
    → IsMarked s parent serial
    → IsMarked (record s { buf = store s.buf p (write_buf (s.buf p) bytes ofs len) }) parent serial
content-IsMarked s parent serial p bytes ofs len v =
    let w = write_buf (s.buf p) bytes ofs len in
    record {
      owned = λ slot.
          Owned-same s.buf (store s.buf p w) (parent slot) (serial slot)
            (group_at slot s.groups).dirty
            (λ q h. store_same (λ x. x.mark) s.buf p w q (unfold write_buf in refl) ∙ h)
            (λ q. store_same (λ x. x.parent) s.buf p w q (unfold write_buf in refl))
            (λ q. store_same (λ x. x.serial) s.buf p w q (unfold write_buf in refl)) (v.owned slot);
      counted = v.counted;
      distinct = v.distinct;
      apart = v.apart;
    }

here_Member :
    (s : PageBufs) (slot p : ℕ)
    → slot < length s.groups
    → Member p (group_at slot (link_to_dirty_list s slot p).groups).dirty
unfolding link_to_dirty_list
here_Member s slot p lt =
    let self : (slot == slot) ≡ true = ground arith in
    let e =
      group_at-change_group (λ g. record g { dirty = p ∷ g.dirty; count = g.count + 1 }) slot slot
        s.groups lt in
    rw (e, self) (inl refl)

link_once-IsMarked :
    (s : PageBufs) (parent serial : ℕ → ℕ) (slot p : ℕ)
    → IsMarked s parent serial
    → IsFitting s.groups parent serial (s.buf p).parent (s.buf p).serial slot
    → ((parent' serial' : ℕ → ℕ) × IsMarked (link_once s slot p) parent' serial')
      × Member p (group_at slot (link_once s slot p).groups).dirty
unfolding link_once
link_once-IsMarked s parent serial slot p v fits =
    elim (Bool-cases (is_in p (group_at slot s.groups).dirty)) [
      | inl old ↦ rw old ((parent, serial, v), is_in-Member p _ old)
      | inr new ↦ rw new (
        (
          write parent slot (s.buf p).parent,
          write serial slot (s.buf p).serial,
          link-IsMarked s parent serial slot p v fits.range (is_in-Absent p _ new) fits.own
              fits.only,
        ),
        here_Member s slot p fits.range,
      )
    ]

-- Good dirty lists, where every group counts its buffers, which are dirty, pages of one owner and
-- listed once, and no two groups are of one owner, stay good over a uffs_BufWrite that finds a
-- slot without a flush, stays below the limit of the group and lies in the page; it succeeds and
-- the buffer is then in the list of that slot.
pub buf_write-IsMarked :
    (flush : Flush) (s : PageBufs) (parent serial : ℕ → ℕ) (p : ℕ) (bytes : Option Bytes)
    (ofs len slot : ℕ)
    → IsMarked s parent serial
    → HasSlot s (s.buf p).parent (s.buf p).serial slot
    → (group_at slot s.groups).count + 1 < s.dirty_buf_max
    → ofs + len ≤ s.pg_data_size
    → s.pg_data_size < 65536
    → let (ret, s') = buf_write flush s p bytes ofs len in
      (ret ≡ true)
      × ((parent' serial' : ℕ → ℕ) × IsMarked s' parent' serial')
      × Member p (group_at slot s'.groups).dirty
unfolding buf_write
buf_write-IsMarked flush s parent serial p bytes ofs len slot v has room fit small =
    let w = write_buf (s.buf p) bytes ofs len in
    let t = record s { buf = store s.buf p w } in
    let in_page : ltb s.pg_data_size (u32 (ofs + len)) ≡ false = ground arith in
    let fits = HasSlot-IsFitting s parent serial (s.buf p).parent (s.buf p).serial slot v has in
    let vt = content-IsMarked s parent serial p bytes ofs len v in
    let a : (t.buf p).parent ≡ (s.buf p).parent =
      store_same (λ x. x.parent) s.buf p w p (unfold write_buf in refl) in
    let b : (t.buf p).serial ≡ (s.buf p).serial =
      store_same (λ x. x.serial) s.buf p w p (unfold write_buf in refl) in
    let fits' : IsFitting s.groups parent serial (t.buf p).parent (t.buf p).serial slot =
      subst (λ x. IsFitting s.groups parent serial x (t.buf p).serial slot) (sym a)
        (subst (λ y. IsFitting s.groups parent serial (s.buf p).parent y slot) (sym b) fits) in
    let done = link_once-IsMarked t parent serial slot p vt fits' in
    rw
      (
        take_slot-HasSlot flush s (s.buf p).parent (s.buf p).serial slot has,
        in_page,
        written flush s p bytes ofs len slot room,
      )
      (refl, done.0, done.1)
