-- ===== src/DirtyBuf/Link.antt =====
-- Linking a buffer to a dirty list of src/uffs_buf.c keeps the lists right.
use esp_uffs.Prelude.{
  ℕ, ◌+◌, ◌<◌, ◌≡◌, ◌≢◌, refl, sym, ◌∙◌, ap, subst, List, [], ◌∷◌, true, false, ◌==◌, ==_iff,
  length, inl, inr, arith, Bool-cases, write, write_self, write_ne,
}
use esp_uffs.Pool.Chain.{Absent, Distinct}
use esp_uffs.Buf.{dirty, Buf, DirtyGroup, PageBufs, store}
use esp_uffs.Buf.Memory.{store_self, store_same}
use esp_uffs.DirtyBuf.{no_dirty, group_at, change_group, link_to_dirty_list, is_in}
use esp_uffs.DirtyBuf.Marks.{Owned, IsMarked, group_at-change_group}

-- The owner of a list that is not empty.
Owned-owner :
    (buf : ℕ → Buf) (a b c d : ℕ) (ps : List ℕ)
    → (no_dirty ps ≡ false → (c ≡ a) × (d ≡ b))
    → Owned buf c d ps
    → Owned buf a b ps
Owned-owner buf a b c d [] own o = tt
Owned-owner buf a b c d (p ∷ rest) own o =
    let same = own (unfold no_dirty in refl) in
    subst (λ x. Owned buf x b (p ∷ rest)) same.0 (subst (λ y. Owned buf c y (p ∷ rest)) same.1 o)

pub Owned-same :
    (buf buf' : ℕ → Buf) (a b : ℕ) (ps : List ℕ)
    → ((q : ℕ) → (buf q).mark ≡ dirty → (buf' q).mark ≡ dirty)
    → ((q : ℕ) → (buf' q).parent ≡ (buf q).parent)
    → ((q : ℕ) → (buf' q).serial ≡ (buf q).serial)
    → Owned buf a b ps
    → Owned buf' a b ps
Owned-same buf buf' a b [] m h k o = tt
Owned-same buf buf' a b (p ∷ rest) m h k o =
    (m p o.0, h p ∙ o.1, k p ∙ o.2, Owned-same buf buf' a b rest m h k o.3)

-- A buffer that is made dirty.
marked :
    (buf : ℕ → Buf) (p : ℕ)
    → (q : ℕ) → (buf q).mark ≡ dirty
    → (store buf p (record (buf p) { mark = dirty }) q).mark ≡ dirty
unfolding store
marked buf p q h = ground arith

pub is_in-Absent : (p : ℕ) (ps : List ℕ) → is_in p ps ≡ false → Absent p ps
unfolding is_in
is_in-Absent p [] h = tt
is_in-Absent p (q ∷ rest) h = elim (Bool-cases (q == p)) [
  | inl e ↦ ground arith
  | inr e ↦ ((λ at. let t = (==_iff q p).1 (sym at) in cc), is_in-Absent p rest (rw e at h))
]

ne_test : (j slot : ℕ) → j ≢ slot → (j == slot) ≡ false
ne_test j slot ne = ground arith

by_slot : (P : ℕ → Type 0) (slot : ℕ) → P slot → ((j : ℕ) → j ≢ slot → P j) → (j : ℕ) → P j
by_slot P slot own other j = elim (Bool-cases (j == slot)) [
  | inl e ↦ subst P (sym ((==_iff j slot).0 e)) own
  | inr e ↦ other j (λ q. let h = (==_iff j slot).1 q in cc)
]

abbrev added : ℕ → DirtyGroup → DirtyGroup
added p g = record g { dirty = p ∷ g.dirty; count = g.count + 1 }

pub link-IsMarked :
    (s : PageBufs) (parent serial : ℕ → ℕ) (slot p : ℕ)
    → IsMarked s parent serial
    → slot < length s.groups
    → Absent p (group_at slot s.groups).dirty
    → (no_dirty (group_at slot s.groups).dirty ≡ false
        → (parent slot ≡ (s.buf p).parent) × (serial slot ≡ (s.buf p).serial))
    → ((j : ℕ)
        → no_dirty (group_at j s.groups).dirty ≡ false
        → parent j ≡ (s.buf p).parent
        → serial j ≡ (s.buf p).serial
        → j ≡ slot)
    → IsMarked
        (link_to_dirty_list s slot p)
        (write parent slot (s.buf p).parent)
        (write serial slot (s.buf p).serial)
unfolding link_to_dirty_list
link-IsMarked s parent serial slot p v lt out own only =
    let a = (s.buf p).parent in
    let b = (s.buf p).serial in
    let d = record (s.buf p) { mark = dirty } in
    let buf' = store s.buf p d in
    let groups' = change_group (added p) slot s.groups in
    let self : (slot == slot) ≡ true = ground arith in
    let here : group_at slot groups' ≡ added p (group_at slot s.groups) =
      group_at-change_group (added p) slot slot s.groups lt ∙ (rw self refl) in
    let there : (j : ℕ) → j ≢ slot → group_at j groups' ≡ group_at j s.groups =
      λ j ne. group_at-change_group (added p) slot j s.groups lt ∙ (rw (ne_test j slot ne) refl) in
    let busy : (j : ℕ)
        → j ≢ slot
        → no_dirty (group_at j groups').dirty ≡ false
        → no_dirty (group_at j s.groups).dirty ≡ false =
      λ j ne h. sym (ap (λ (g : DirtyGroup). no_dirty g.dirty) (there j ne)) ∙ h in
    let carry : (c e : ℕ) (ps : List ℕ) → Owned s.buf c e ps → Owned buf' c e ps = λ c e ps.
      Owned-same s.buf buf' c e ps (marked s.buf p)
        (λ q. store_same (λ x. x.parent) s.buf p d q refl)
        (λ q. store_same (λ x. x.serial) s.buf p d q refl) in
    let own_list : Owned buf' a b (p ∷ (group_at slot s.groups).dirty) = (
      ap (λ (x : Buf). x.mark) (store_self s.buf p d),
      ap (λ (x : Buf). x.parent) (store_self s.buf p d),
      ap (λ (x : Buf). x.serial) (store_self s.buf p d),
      carry a b (group_at slot s.groups).dirty (
          Owned-owner s.buf a b (parent slot) (serial slot) (group_at slot s.groups).dirty own
            (v.owned slot)),
    ) in
    record {
      owned =
          by_slot
            (λ j.
              Owned buf' (write parent slot a j) (write serial slot b j) (group_at j groups').dirty)
            slot
            (subst
              (λ (g : DirtyGroup).
                Owned buf' (write parent slot a slot) (write serial slot b slot) g.dirty)
              (sym here)
              (Owned-owner buf' (write parent slot a slot) (write serial slot b slot) a b
                (p ∷ (group_at slot s.groups).dirty)
                (λ nonempty. (sym (write_self parent slot a), sym (write_self serial slot b)))
                own_list))
            (λ j ne.
              subst
                (λ (g : DirtyGroup).
                  Owned buf' (write parent slot a j) (write serial slot b j) g.dirty)
                (sym (there j ne))
                (Owned-owner buf' (write parent slot a j) (write serial slot b j) (parent j)
                  (serial j) (group_at j s.groups).dirty
                  (λ nonempty.
                    (sym (write_ne parent slot a j ne), sym (write_ne serial slot b j ne)))
                  (carry (parent j) (serial j) (group_at j s.groups).dirty (v.owned j))));
      counted =
          by_slot (λ j. (group_at j groups').count ≡ length (group_at j groups').dirty) slot
            (rw here (omega (arith, v.counted slot))) (λ j ne. rw (there j ne) (v.counted j));
      distinct =
          by_slot (λ j. Distinct (group_at j groups').dirty) slot (rw here (out, v.distinct slot))
            (λ j ne. rw (there j ne) (v.distinct j));
      apart =
          by_slot
            (λ i.
              (j : ℕ)
              → no_dirty (group_at i groups').dirty ≡ false
              → no_dirty (group_at j groups').dirty ≡ false
              → write parent slot a i ≡ write parent slot a j
              → write serial slot b i ≡ write serial slot b j
              → i ≡ j)
            slot
            (by_slot
              (λ j.
                no_dirty (group_at slot groups').dirty ≡ false
                → no_dirty (group_at j groups').dirty ≡ false
                → write parent slot a slot ≡ write parent slot a j
                → write serial slot b slot ≡ write serial slot b j
                → slot ≡ j)
              slot (λ hi hj e f. refl)
              (λ j ne hi hj e f. sym (
                only j (busy j ne hj)
                  (sym (sym (write_self parent slot a) ∙ e ∙ write_ne parent slot a j ne))
                  (sym (sym (write_self serial slot b) ∙ f ∙ write_ne serial slot b j ne)))))
            (λ i ni.
              by_slot
                (λ j.
                  no_dirty (group_at i groups').dirty ≡ false
                  → no_dirty (group_at j groups').dirty ≡ false
                  → write parent slot a i ≡ write parent slot a j
                  → write serial slot b i ≡ write serial slot b j
                  → i ≡ j)
                slot
                (λ hi hj e f.
                  only i (busy i ni hi)
                    (sym (write_ne parent slot a i ni) ∙ e ∙ write_self parent slot a)
                    (sym (write_ne serial slot b i ni) ∙ f ∙ write_self serial slot b))
                (λ j nj hi hj e f.
                  v.apart i j (busy i ni hi) (busy j nj hj)
                    (sym (write_ne parent slot a i ni) ∙ e ∙ write_ne parent slot a j nj)
                    (sym (write_ne serial slot b i ni) ∙ f ∙ write_ne serial slot b j nj)));
    }
