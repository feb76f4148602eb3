-- ===== src/MountTable/Longest.antt =====
-- src/uffs_mtb.c: the mount point that uffs_GetMatchedMountPointSize finds for a path.
use esp_uffs.Prelude.{
  ℕ, zero, suc, ◌+◌, ◌-◌, ◌<◌, ◌≤◌, ◌≡◌, refl, sym, ◌∙◌, ap, subst, fun_ext, List, Bool, true,
  false, Option, none, some, ◌==◌, arith, Bool-cases, ◌⊎◌, inl, inr, length, get_or, ltb,
}
use esp_uffs.MountTable.{
  MountEntry, Mounts, update, is_listed, has_prefix, slash, get_device,
  get_device_from_mount_point_ex, put_device, back_to_slash, next_pos, match_loop,
  get_matched_mount_point_size,
}
use esp_uffs.MountTable.Names.{break_first-Broken}

-- The character before place `q` is a slash.
abbrev pub ends_in_slash : List ℕ → ℕ → Bool
ends_in_slash path q = get_or path (q - 1) 0 == slash

back_to_slash-last :
    (path : List ℕ) (p : ℕ)
    → (back_to_slash path p ≤ p)
      × ((q : ℕ) → back_to_slash path p < q → q ≤ p → ends_in_slash path q ≡ false)
unfolding back_to_slash
back_to_slash-last path zero = (omega arith, λ q a b. absurd (omega arith))
back_to_slash-last path (suc p) =
    let (low, none_here) = back_to_slash-last path p in
    elim (Bool-cases (get_or path p 0 == slash)) [
      | inl t ↦ rw t (omega arith, λ q a b. absurd (omega arith))
      | inr f ↦ rw f (
        omega arith,
        λ q a b. elim (Bool-cases (q == suc p)) [
          | inl e ↦ let at : q - 1 ≡ p = ground arith in rw at f
          | inr n ↦ none_here q a (ground arith)
        ],
      )
    ]

next_pos-last :
    (path : List ℕ) (place : ℕ)
    → 0 < place
    → (next_pos path place < place)
      × ((q : ℕ) → next_pos path place < q → q < place → ends_in_slash path q ≡ false)
unfolding next_pos back_to_slash
next_pos-last path zero h = absurd (omega arith)
next_pos-last path (suc p) h =
    let at : suc p - 1 ≡ p = omega arith in
    let (low, none_here) = back_to_slash-last path p in
    rw at (elim (Bool-cases (get_or path p 0 == slash)) [
      | inl t ↦ rw t (omega arith, λ q a b. none_here q a (omega arith))
      | inr f ↦ rw f (omega arith, λ q a b. none_here q a (omega arith))
    ])

-- A device with one more reference that is put is as it was.
put_device-more :
    (s : Mounts) (dev : ℕ)
    → let held = record (s.devices dev) { ref_count = (s.devices dev).ref_count + 1 } in
      put_device dev (record s { devices = update s.devices dev held }) ≡ s
unfolding put_device update
put_device-more s dev =
    let same : (dev == dev) ≡ true = ground arith in
    let back : (s.devices dev).ref_count + 1 - 1 ≡ (s.devices dev).ref_count = omega arith in
    ap (λ f. record s { devices = f })
      (fun_ext (λ x. elim (Bool-cases (x == dev)) [
        | inl t ↦
            let e : x ≡ dev = ground arith in
            rw t (
              rw same
                (ap (λ n. record (s.devices dev) { ref_count = n }) back ∙ ap s.devices (sym e)))
        | inr f ↦ rw f refl
      ]))

-- A mounted entry passes the test, and its device comes with a reference that a put takes back, or none
-- does.
abbrev Got : (MountEntry → Bool) → Mounts → Option ℕ × Mounts → Type 0
Got test s r =
    ((r ≡ (none, s)) × (is_listed test s.mounted ≡ false))
    ⊎ ((dev : ℕ) × (next : Mounts) × (r ≡ (some dev, next))
        × (is_listed test s.mounted ≡ true)
        × (put_device dev next ≡ s))

get_device-Got : (test : MountEntry → Bool) (s : Mounts) → Got test s (get_device test s)
unfolding get_device
get_device-Got test s = elim (break_first-Broken test s.mounted) [
  | inl (e, l) ↦ rw (e, get_device) (inl (refl, l))
  | inr (e, rest, q, t, l, keeps, apart) ↦
      rw (q, get_device) (inr (e.dev, _, refl, l, put_device-more s e.dev))
]

get_device_ex-Got :
    (path : List ℕ) (place : ℕ) (s : Mounts)
    → Got (has_prefix path place) s (get_device_from_mount_point_ex path place s)
unfolding get_device_from_mount_point_ex
get_device_ex-Got path place s = get_device-Got (has_prefix path place) s

-- What the search over the places up to `place` finds: the places that it looks at are the first one and
-- those behind a slash.
abbrev pub IsLongest : List ℕ → ℕ → Mounts → ℕ × Mounts → Type 0
IsLongest path place s r =
    (r.1 ≡ s)
    × (r.0 ≤ place)
    × ((r.0 ≡ 0) ⊎ (is_listed (has_prefix path (r.0)) s.mounted ≡ true))
    × ((q : ℕ)
        → r.0 < q
        → q ≤ place
        → (q ≡ place) ⊎ (ends_in_slash path q ≡ true)
        → is_listed (has_prefix path q) s.mounted ≡ false)

match_loop-IsLongest :
    (fuel : ℕ) (path : List ℕ) (place : ℕ) (s : Mounts)
    → place < fuel
    → IsLongest path place s (match_loop fuel path place s)
unfolding match_loop
match_loop-IsLongest zero path place s h = absurd (omega arith)
match_loop-IsLongest (suc fuel) path place s h = elim (Bool-cases (place == 0)) [
  | inl t ↦ rw t (refl, omega arith, inl refl, λ q a b c. absurd (ground arith))
  | inr f ↦
      let above : 0 < place = ground arith in
      let (down, skipped) = next_pos-last path place above in
      elim (get_device_ex-Got path place s) [
        | inr (dev, next, e, l, back) ↦
            rw (f, e)
              (
                ap (put_device dev) (ap (λ r. r.1) e) ∙ back,
                omega arith,
                inr l,
                λ q a b c. absurd (omega arith),
              )
        | inl (e, l) ↦
            let same = ap (λ r. r.1) e in
            let np = next_pos path place in
            let later =
              subst (λ x. IsLongest path np s (match_loop fuel path np x)) (sym same)
                (match_loop-IsLongest fuel path np s (omega arith)) in
            let low = later.1 in
            rw (f, e)
              (
                later.0,
                omega arith,
                later.2,
                λ q a b c. elim (Bool-cases (q == place)) [
                  | inl t ↦ let same : q ≡ place = ground arith in rw same l
                  | inr n ↦
                      let less : q < place = ground arith in
                      elim c [
                        | inl e ↦ absurd (omega arith)
                        | inr t ↦ elim (Bool-cases (ltb (next_pos path place) q)) [
                          | inl far ↦
                              let no = skipped q (ground arith) less in
                              absurd (ground (arith, no, t))
                          | inr near ↦
                              let at : q ≤ next_pos path place = ground arith in
                              later.3 q a at (inr t)
                        ]
                      ]
                ],
              )
      ]
]

-- For a path that starts with a slash, uffs_GetMatchedMountPointSize ends, leaves the tables and
-- the reference counts as they were, and returns 0 or the length of a prefix of the path that is a
-- mounted mount point; no longer prefix that is the path itself or ends in a slash is one.
pub get_matched_mount_point_size-IsLongest :
    (path : List ℕ) (s : Mounts)
    → get_or path 0 0 ≡ slash
    → IsLongest path (length path) s (get_matched_mount_point_size path s)
unfolding get_matched_mount_point_size
get_matched_mount_point_size-IsLongest path s absolute =
    let test : (get_or path 0 0 == slash) ≡ true = ground arith in
    rw test (match_loop-IsLongest (suc (length path)) path (length path) s (omega arith))
