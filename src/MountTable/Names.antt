-- ===== src/MountTable/Names.antt =====
-- src/uffs_mtb.c keeps the mount points of the mounted partitions apart.
use esp_uffs.Prelude.{
  ℕ, ◌≡◌, refl, sym, ◌∙◌, ap, List, [], ◌∷◌, Bool, true, false, Option, none, some, ◌==◌, arith,
  Bool-cases, ◌⊎◌, inl, inr, if◌then◌else◌,
}
use esp_uffs.MountTable.{
  MountEntry, Mounts, DeviceCalls, same_text, break_first, is_listed, has_mount, set_range,
  mount_entry, mount, unmount_entry, unmount,
}

pub same_text-eq : (xs ys : List ℕ) → same_text xs ys ≡ true → xs ≡ ys
unfolding same_text
same_text-eq [] [] t = refl
same_text-eq [] (y ∷ ys) t = absurd (ground (arith, t))
same_text-eq (x ∷ xs) [] t = absurd (ground (arith, t))
same_text-eq (x ∷ xs) (y ∷ ys) t =
    let e : x ≡ y = ground arith in
    let rest : same_text xs ys ≡ true = ground arith in rw e (ap (◌∷◌ y) (same_text-eq xs ys rest))

same_text_refl : (xs : List ℕ) → same_text xs xs ≡ true
unfolding same_text
same_text_refl [] = refl
same_text_refl (x ∷ xs) = let e = same_text_refl xs in ground (arith, e)

has_mount_sym : (a b : MountEntry) → has_mount a.mount b ≡ false → has_mount b.mount a ≡ false
has_mount_sym a b f = elim (Bool-cases (has_mount b.mount a)) [
  | inr g ↦ g
  | inl t ↦
      let e = same_text-eq a.mount b.mount t in
      let no : true ≡ false = sym (same_text_refl b.mount) ∙ ap (same_text b.mount) (sym e) ∙ f in
      absurd (ground (arith, no))
]

not_listed :
    (test : MountEntry → Bool) (x : MountEntry) (xs : List MountEntry)
    → is_listed test (x ∷ xs) ≡ false
    → (test x ≡ false) × (is_listed test xs ≡ false)
unfolding is_listed
not_listed test x xs h = elim (Bool-cases (test x)) [
  | inl t ↦ absurd (ground (arith, t, h))
  | inr f ↦ (f, ground (arith, f, h))
]

listed_neither :
    (test : MountEntry → Bool) (x : MountEntry) (xs : List MountEntry)
    → test x ≡ false
    → is_listed test xs ≡ false
    → is_listed test (x ∷ xs) ≡ false
unfolding is_listed
listed_neither test x xs f h = rw f h

-- No two entries have the same mount point.
unfoldable pub AreApart : List MountEntry → Type 0
AreApart [] = true ≡ true
AreApart (work ∷ rest) = (is_listed (has_mount work.mount) rest ≡ false) × AreApart rest

-- What breaking the first entry out of a list gives.
abbrev pub Broken :
    (MountEntry → Bool) → List MountEntry → Option (MountEntry × List MountEntry) → Type 0
Broken test xs r =
    ((r ≡ none) × (is_listed test xs ≡ false))
    ⊎ ((e : MountEntry) × (rest : List MountEntry) × (r ≡ some (e, rest))
        × (test e ≡ true)
        × (is_listed test xs ≡ true)
        × ((other : MountEntry → Bool)
            → is_listed other xs ≡ false
            → (other e ≡ false) × (is_listed other rest ≡ false))
        × (AreApart xs → AreApart rest × (is_listed (has_mount e.mount) rest ≡ false)))

pub break_first-Broken :
    (test : MountEntry → Bool) (xs : List MountEntry) → Broken test xs (break_first test xs)
unfolding break_first is_listed AreApart
break_first-Broken test [] = inl (refl, refl)
break_first-Broken test (x ∷ xs) = elim (Bool-cases (test x)) [
  | inl t ↦ rw t (inr (x, xs, refl, t, refl, λ other h. not_listed other x xs h, λ v. (v.1, v.0)))
  | inr f ↦ elim (break_first-Broken test xs) [
    | inl (e, l) ↦ rw (f, e) (inl (refl, l))
    | inr (e, rest, q, t, l, keeps, apart) ↦
        let kept : (other : MountEntry → Bool)
            → is_listed other (x ∷ xs) ≡ false
            → (other e ≡ false) × (is_listed other (x ∷ rest) ≡ false) =
          λ other h.
            let (a, b) = not_listed other x xs h in
            let (c, d) = keeps other b in (c, listed_neither other x rest a d) in
        let still : AreApart (x ∷ xs)
            → AreApart (x ∷ rest) × (is_listed (has_mount e.mount) (x ∷ rest) ≡ false) =
          λ v.
            let (c, d) = keeps (has_mount x.mount) (v.0) in
            let (a, b) = apart (v.1) in
            ((d, a), listed_neither (has_mount e.mount) x rest (has_mount_sym x e c) b) in
        rw (f, q) (inr (e, x ∷ rest, refl, t, l, kept, still))
  ]
]

-- A failed call leaves the lists alone; a call that succeeds moves the name from the list `from` to the
-- list `to`.
abbrev pub Moves :
    List ℕ
    → Mounts
    → (Mounts → List MountEntry)
    → (Mounts → List MountEntry)
    → Bool × Mounts
    → Type 0
Moves name s from to r =
    AreApart (r.1.mounted)
    × (((r.0 ≡ false) × (r.1.mounted ≡ s.mounted) × (r.1.unmounted ≡ s.unmounted))
        ⊎ ((r.0 ≡ true)
            × (is_listed (has_mount name) (from s) ≡ true)
            × (is_listed (has_mount name) (to s) ≡ false)
            × (is_listed (has_mount name) (to (r.1)) ≡ true)))

has_mount_listed :
    (e : MountEntry) (name : List ℕ) (xs : List MountEntry)
    → has_mount name e ≡ true
    → (is_listed (has_mount name) (e ∷ xs) ≡ true)
      × (is_listed (has_mount name) xs ≡ false → is_listed (has_mount e.mount) xs ≡ false)
unfolding is_listed
has_mount_listed e name xs t =
    (rw t refl, λ h. ap (λ n. is_listed (has_mount n) xs) (same_text-eq e.mount name t) ∙ h)

-- If no two mounted entries have the same mount point, then none have after uffs_Mount, whatever
-- the device reports: it either fails and leaves both lists alone, or succeeds, and then the name
-- was that of an unmounted entry and of no mounted one, and is now that of a mounted entry.
pub mount-AreApart :
    (calls : DeviceCalls) (name : List ℕ) (s : Mounts)
    → AreApart s.mounted
    → Moves name s (λ x. x.unmounted) (λ x. x.mounted) (mount calls name s)
unfolding mount mount_entry AreApart
mount-AreApart calls name s v = elim (Bool-cases (is_listed (has_mount name) s.mounted)) [
  | inl t ↦ rw t (v, inl (refl, refl, refl))
  | inr f ↦ elim (break_first-Broken (has_mount name) s.unmounted) [
    | inl (e, l) ↦ rw (f, e) (v, inl (refl, refl, refl))
    | inr (e, rest, q, t, l, keeps, apart) ↦
        let first = calls.init (set_range e (s.devices e.dev)) in
        let second = calls.init_device (first.1) in
        let (now, own) = has_mount_listed e name s.mounted t in
        elim (Bool-cases (first.0)) [
          | inr a ↦ rw (f, q, a) (v, inl (refl, refl, refl))
          | inl a ↦ elim (Bool-cases (second.0)) [
            | inr b ↦ rw (f, q, a, b) (v, inl (refl, refl, refl))
            | inl b ↦ rw (f, q, a, b) ((own f, v), inr (refl, l, refl, now))
          ]
        ]
  ]
]

-- If no two mounted entries have the same mount point, then none have after uffs_UnMount, whatever
-- the device reports: it either fails and leaves both lists alone, or succeeds, and then the name
-- was that of a mounted entry and of no unmounted one, and is now that of an unmounted entry and
-- of no mounted one.
pub unmount-AreApart :
    (calls : DeviceCalls) (name : List ℕ) (s : Mounts)
    → AreApart s.mounted
    → Moves name s (λ x. x.mounted) (λ x. x.unmounted) (unmount calls name s)
      × (((unmount calls name s).0 ≡ true)
          → is_listed (has_mount name) ((unmount calls name s).1.mounted) ≡ false)
unfolding unmount unmount_entry
unmount-AreApart calls name s v = elim (Bool-cases (is_listed (has_mount name) s.unmounted)) [
  | inl t ↦ rw t ((v, inl (refl, refl, refl)), λ no. absurd (ground (arith, no)))
  | inr f ↦ elim (break_first-Broken (has_mount name) s.mounted) [
    | inl (e, l) ↦ rw (f, e) ((v, inl (refl, refl, refl)), λ no. absurd (ground (arith, no)))
    | inr (e, rest, q, t, l, keeps, apart) ↦
        let dev = s.devices e.dev in
        let first = if dev.have_badblock then calls.bad_block_recover dev else dev in
        let second = calls.release_device first in
        let (now, own) = has_mount_listed e name s.unmounted t in
        let (still, gone) = apart v in
        let gone_name =
          ap (λ n. is_listed (has_mount n) rest) (sym (same_text-eq e.mount name t)) ∙ gone in
        elim (Bool-cases (first.ref_count == 0)) [
          | inr a ↦ rw (f, q, a) ((v, inl (refl, refl, refl)), λ no. absurd (ground (arith, no)))
          | inl a ↦ elim (Bool-cases (second.0)) [
            | inr b ↦
                rw (f, q, a, b) ((v, inl (refl, refl, refl)), λ no. absurd (ground (arith, no)))
            | inl b ↦ rw (f, q, a, b) ((still, inr (refl, l, refl, now)), λ yes. gone_name)
          ]
        ]
  ]
]
