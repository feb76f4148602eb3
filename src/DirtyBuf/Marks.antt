-- ===== src/DirtyBuf/Marks.antt =====
-- The dirty lists of src/uffs_buf.c: which buffers they hold, and their counts.
use esp_uffs.Prelude.{
  ℕ, zero, suc, ◌<◌, ◌≡◌, refl, sym, ◌∙◌, ap, subst, List, [], ◌∷◌, true, false, ◌&&◌, some, ◌==◌,
  ==_iff, if◌then◌else◌, length, inl, inr, arith, Bool-cases,
}
use esp_uffs.Pool.Chain.{Member, Absent, Distinct}
use esp_uffs.Buf.{dirty, is_dirty, Buf, DirtyGroup, PageBufs, remove}
use esp_uffs.DirtyBuf.{
  no_dirty, group_at, group_of, change_group, buf_find_group_slot, same_owner, check_dirty_list,
}
use esp_uffs.DirtyBuf.Slots.{slot_such-first}

-- Dirty buffers with pages of one owner.
abbrev pub Owned : (ℕ → Buf) → ℕ → ℕ → List ℕ → Type 0
Owned buf parent serial [] = Unit {0}
Owned buf parent serial (p ∷ rest) =
    ((buf p).mark ≡ dirty)
    × ((buf p).parent ≡ parent)
    × ((buf p).serial ≡ serial)
    × Owned buf parent serial rest

-- Every group counts its buffers, which are dirty, and two groups are not of one owner.
pub record IsMarked (s : PageBufs) (parent serial : ℕ → ℕ) : Type 0 where
  pub owned : (slot : ℕ) → Owned s.buf (parent slot) (serial slot) (group_at slot s.groups).dirty
  pub counted : (slot : ℕ) → (group_at slot s.groups).count ≡ length (group_at slot s.groups).dirty
  pub distinct : (slot : ℕ) → Distinct (group_at slot s.groups).dirty
  pub apart :
      (i j : ℕ)
      → no_dirty (group_at i s.groups).dirty ≡ false
      → no_dirty (group_at j s.groups).dirty ≡ false
      → parent i ≡ parent j
      → serial i ≡ serial j
      → i ≡ j

Owned-same_owner :
    (buf : ℕ → Buf) (parent serial : ℕ) (ps : List ℕ)
    → Owned buf parent serial ps
    → same_owner buf parent serial ps ≡ true
unfolding same_owner is_dirty
Owned-same_owner buf parent serial [] o = refl
Owned-same_owner buf parent serial (p ∷ rest) o =
    let later = Owned-same_owner buf parent serial rest o.3 in
    let own : ((buf p).parent == parent) && ((buf p).serial == serial) ≡ true =
      let a = o.1 in let b = o.2 in ground arith in
    rw (own, o.0) later

pub check_dirty_list-IsMarked :
    (s : PageBufs) (parent serial : ℕ → ℕ) (slot : ℕ)
    → IsMarked s parent serial
    → check_dirty_list s.buf (group_at slot s.groups).dirty ≡ true
check_dirty_list-IsMarked s parent serial slot v =
    go s.buf (parent slot) (serial slot) (group_at slot s.groups).dirty (v.owned slot)
  where
    go : (buf : ℕ → Buf) (a b : ℕ) (ps : List ℕ) → Owned buf a b ps → check_dirty_list buf ps ≡ true
    go buf a b [] o = unfold check_dirty_list in refl
    go buf a b (p ∷ rest) o =
        unfold check_dirty_list in rw (o.1, o.2) (Owned-same_owner buf a b rest o.3)

pub group_of-owner :
    (buf : ℕ → Buf) (a b : ℕ) (ps : List ℕ)
    → Owned buf a b ps
    → no_dirty ps ≡ false
    → group_of buf a b ps ≡ true
unfolding group_of no_dirty
group_of-owner buf a b [] o some_dirty = cc
group_of-owner buf a b (p ∷ rest) o some_dirty = let e = o.1 in let f = o.2 in ground arith

pub owner-group_of :
    (buf : ℕ → Buf) (a b c d : ℕ) (ps : List ℕ)
    → Owned buf a b ps
    → group_of buf c d ps ≡ true
    → (no_dirty ps ≡ false) × (a ≡ c) × (b ≡ d)
unfolding group_of no_dirty
owner-group_of buf a b c d [] o found = cc
owner-group_of buf a b c d (p ∷ rest) o found = let e = o.1 in let f = o.2 in ground arith

pub in_range :
    (slot : ℕ) (gs : List DirtyGroup) → no_dirty (group_at slot gs).dirty ≡ false → slot < length gs
unfolding group_at no_dirty
in_range slot [] h = cc
in_range zero (g ∷ rest) h = omega arith
in_range (suc slot) (g ∷ rest) h = omega (arith, in_range slot rest h)

pub buf_find_group_slot-owner :
    (s : PageBufs) (parent serial : ℕ → ℕ) (slot : ℕ)
    → IsMarked s parent serial
    → no_dirty (group_at slot s.groups).dirty ≡ false
    → buf_find_group_slot s (parent slot) (serial slot) ≡ some slot
unfolding buf_find_group_slot
buf_find_group_slot-owner s parent serial slot v nonempty =
    slot_such-first (λ g. group_of s.buf (parent slot) (serial slot) g.dirty) 0 slot s.groups
      (in_range slot s.groups nonempty)
      (group_of-owner s.buf (parent slot) (serial slot) _ (v.owned slot) nonempty)
      (λ j hj.
        elim (Bool-cases (group_of s.buf (parent slot) (serial slot) (group_at j s.groups).dirty)) [
          | inl found ↦
              let same =
                owner-group_of s.buf (parent j) (serial j) (parent slot) (serial slot) _ (v.owned j)
                  found in
              let e = v.apart j slot same.0 nonempty same.1 same.2 in absurd (omega arith)
          | inr other ↦ other
        ])
    ∙ ap some (omega arith)

pub length-remove : (p : ℕ) (ps : List ℕ) → Member p ps → length ps ≡ suc (length (remove p ps))
unfolding remove
length-remove p [] m = elim m [ ]
length-remove p (q ∷ rest) (inl e) = let same : (q == p) ≡ true = ground arith in rw same refl
length-remove p (q ∷ rest) (inr m) = ground (arith, length-remove p rest m)

pub Absent-remove : (a p : ℕ) (ps : List ℕ) → Absent a ps → Absent a (remove p ps)
unfolding remove
Absent-remove a p [] h = tt
Absent-remove a p (q ∷ rest) h = elim (Bool-cases (q == p)) [
  | inl e ↦ rw e h.1
  | inr e ↦ rw e (h.0, Absent-remove a p rest h.1)
]

pub Distinct-remove :
    (p : ℕ) (ps : List ℕ) → Distinct ps → Distinct (remove p ps) × Absent p (remove p ps)
unfolding remove
Distinct-remove p [] d = (tt, tt)
Distinct-remove p (q ∷ rest) d = elim (Bool-cases (q == p)) [
  | inl e ↦ rw e (d.1, subst (λ a. Absent a rest) ((==_iff q p).0 e) d.0)
  | inr e ↦
      let inner = Distinct-remove p rest d.1 in
      rw e (
        (Absent-remove q p rest d.0, inner.0),
        ((λ at. let h = (==_iff q p).1 (sym at) in cc), inner.1),
      )
]

pub Owned-remove :
    (buf : ℕ → Buf) (a b p : ℕ) (ps : List ℕ) → Owned buf a b ps → Owned buf a b (remove p ps)
unfolding remove
Owned-remove buf a b p [] o = tt
Owned-remove buf a b p (q ∷ rest) o = elim (Bool-cases (q == p)) [
  | inl e ↦ rw e o.3
  | inr e ↦ rw e (o.0, o.1, o.2, Owned-remove buf a b p rest o.3)
]

-- The groups after a change of one.
pub group_at-change_group :
    (f : DirtyGroup → DirtyGroup) (slot j : ℕ) (gs : List DirtyGroup)
    → slot < length gs
    → group_at j (change_group f slot gs)
      ≡ (if j == slot then f (group_at slot gs) else group_at j gs)
unfolding group_at change_group
group_at-change_group f slot j [] h = absurd (omega arith)
group_at-change_group f zero zero (g ∷ rest) h = refl
group_at-change_group f zero (suc j) (g ∷ rest) h = ground arith
group_at-change_group f (suc slot) zero (g ∷ rest) h = ground arith
group_at-change_group f (suc slot) (suc j) (g ∷ rest) h =
    ground (arith, group_at-change_group f slot j rest)
