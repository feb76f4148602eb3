-- ===== src/DirtyBuf/Change.antt =====
-- Taking a buffer out of a dirty list of src/uffs_buf.c and putting one in keep the lists right.
use esp_uffs.Prelude.{
  ℕ, ◌+◌, ◌-◌, ◌<◌, ◌≡◌, ◌≢◌, refl, sym, ◌∙◌, ap, subst, List, [], ◌∷◌, true, false, ◌==◌, ==_iff,
  length, inl, inr, arith, Bool-cases,
}
use esp_uffs.Pool.Chain.{Member, Absent}
use esp_uffs.Buf.{dirty, is_dirty, Buf, DirtyGroup, PageBufs, remove}
use esp_uffs.DirtyBuf.{no_dirty, group_at, change_group, break_from_dirty, unlink_from}
use esp_uffs.DirtyBuf.Marks.{
  Owned, IsMarked, buf_find_group_slot-owner, length-remove, Distinct-remove, Owned-remove,
  in_range, group_at-change_group,
}

pub Owned-Member :
    (buf : ℕ → Buf) (a b p : ℕ) (ps : List ℕ)
    → Owned buf a b ps
    → Member p ps
    → ((buf p).mark ≡ dirty) × ((buf p).parent ≡ a) × ((buf p).serial ≡ b) × (no_dirty ps ≡ false)
unfolding no_dirty
Owned-Member buf a b p [] o m = elim m [ ]
Owned-Member buf a b p (q ∷ rest) o (inl e) = rw e (o.0, o.1, o.2, refl)
Owned-Member buf a b p (q ∷ rest) o (inr m) =
    let later = Owned-Member buf a b p rest o.3 m in (later.0, later.1, later.2, refl)

abbrev taken : ℕ → DirtyGroup → DirtyGroup
taken p g = record g { dirty = remove p g.dirty; count = g.count - 1 }

no_dirty-remove : (p : ℕ) (ps : List ℕ) → no_dirty (remove p ps) ≡ false → no_dirty ps ≡ false
unfolding no_dirty remove
no_dirty-remove p [] h = h
no_dirty-remove p (q ∷ rest) h = refl

taken-IsMarked :
    (s : PageBufs) (parent serial : ℕ → ℕ) (slot p : ℕ)
    → IsMarked s parent serial
    → Member p (group_at slot s.groups).dirty
    → slot < length s.groups
    → IsMarked (record s { groups = change_group (taken p) slot s.groups }) parent serial
taken-IsMarked s parent serial slot p v m lt =
    let at = λ (j : ℕ). group_at-change_group (taken p) slot j s.groups lt in
    let busy : (j : ℕ)
        → no_dirty (group_at j (change_group (taken p) slot s.groups)).dirty ≡ false
        → no_dirty (group_at j s.groups).dirty ≡ false =
      λ j h. elim (Bool-cases (j == slot)) [
        | inl e ↦
            let now : group_at j (change_group (taken p) slot s.groups)
                ≡ taken p (group_at slot s.groups) =
              at j ∙ (rw e refl) in
            let before =
              no_dirty-remove p (group_at slot s.groups).dirty
                (sym (ap (λ (g : DirtyGroup). no_dirty g.dirty) now) ∙ h) in
            subst (λ k. no_dirty (group_at k s.groups).dirty ≡ false) (sym ((==_iff j slot).0 e))
              before
        | inr e ↦
            let now : group_at j (change_group (taken p) slot s.groups) ≡ group_at j s.groups =
              at j ∙ (rw e refl) in
            sym (ap (λ (g : DirtyGroup). no_dirty g.dirty) now) ∙ h
      ] in
    record {
      owned = λ j. elim (Bool-cases (j == slot)) [
        | inl e ↦
            rw (at j, e, (==_iff j slot).0 e)
              (Owned-remove s.buf (parent slot) (serial slot) p _ (v.owned slot))
        | inr e ↦ rw (at j, e) (v.owned j)
      ];
      counted = λ j. elim (Bool-cases (j == slot)) [
        | inl e ↦ rw (at j, e) (omega (arith, v.counted slot, length-remove p _ m))
        | inr e ↦ rw (at j, e) (v.counted j)
      ];
      distinct = λ j. elim (Bool-cases (j == slot)) [
        | inl e ↦ rw (at j, e) (Distinct-remove p _ (v.distinct slot)).0
        | inr e ↦ rw (at j, e) (v.distinct j)
      ];
      apart = λ i j hi hj. v.apart i j (busy i hi) (busy j hj);
    }

-- In good dirty lists, _BreakFromDirty of a listed buffer succeeds, finds the group of the buffer
-- by its owner, takes the buffer and no other out of that list, lowers its count by one, leaves
-- the other groups and the buffers alone, and leaves good dirty lists.
pub break_from_dirty-IsMarked :
    (s : PageBufs) (parent serial : ℕ → ℕ) (slot p : ℕ)
    → IsMarked s parent serial
    → Member p (group_at slot s.groups).dirty
    → let (ret, s') = break_from_dirty s p in
      (ret ≡ true)
      × IsMarked s' parent serial
      × ((group_at slot s'.groups).dirty ≡ remove p (group_at slot s.groups).dirty)
      × Absent p (group_at slot s'.groups).dirty
      × ((group_at slot s'.groups).count + 1 ≡ (group_at slot s.groups).count)
      × ((j : ℕ) → j ≢ slot → group_at j s'.groups ≡ group_at j s.groups)
      × ((q : ℕ) → s'.buf q ≡ s.buf q)
unfolding break_from_dirty unlink_from is_dirty
break_from_dirty-IsMarked s parent serial slot p v m =
    let fact = Owned-Member s.buf (parent slot) (serial slot) p _ (v.owned slot) m in
    let lt = in_range slot s.groups fact.3 in
    let found = buf_find_group_slot-owner s parent serial slot v fact.3 in
    let at = λ (j : ℕ). group_at-change_group (taken p) slot j s.groups lt in
    let self : (slot == slot) ≡ true = ground arith in
    let here : group_at slot (change_group (taken p) slot s.groups)
        ≡ taken p (group_at slot s.groups) =
      at slot ∙ (rw self refl) in
    rw (fact.0, fact.1, fact.2, found)
      (
        refl,
        taken-IsMarked s parent serial slot p v m lt,
        ap (λ (g : DirtyGroup). g.dirty) here,
        (rw here (Distinct-remove p _ (v.distinct slot)).1),
        (rw here (omega (arith, v.counted slot, length-remove p _ m))),
        (λ j ne. at j ∙ (let other : (j == slot) ≡ false = ground arith in rw other refl)),
        (λ q. refl),
      )
