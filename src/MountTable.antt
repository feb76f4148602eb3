-- ===== src/MountTable.antt =====
-- src/uffs_mtb.c: the mount entries of partitions, the mounted and the unmounted ones, and the search
-- for the mount point of a path. The two linked lists are lists of entries, an entry is named by its
-- address `at`, and a device by its place in `devices`. A text is a list of characters without the
-- closing zero. The functions of a device and of src/uffs_init.c and src/uffs_badblock.c that a mount
-- calls are parameters: each gives the device that it leaves behind.
pub mod Names
pub mod Longest
mod Examples
use esp_uffs.Prelude.Words.{u16}
use esp_uffs.Prelude.{
  ℕ, zero, suc, ◌+◌, ◌-◌, List, [], ◌∷◌, Bool, true, false, not, ◌&&◌, Option, none, some, ltb,
  ◌==◌, if◌then◌else◌, length, take, get_or,
}

pub data ℤ : Type 0 where
  pos : ℕ → ℤ
  negsuc : ℕ → ℤ

infixl 20 ◌+ℤ◌
unfoldable pub ◌+ℤ◌ : ℕ → ℤ → ℤ
m +ℤ pos n = pos (m + n)
m +ℤ negsuc n = if ltb n m then pos (m - suc n) else negsuc (n - m)

pub record Device : Type 0 where
  pub total_blocks : ℕ
  pub par_start : ℕ
  pub par_end : ℕ
  pub ref_count : ℕ
  pub dev_num : ℕ
  pub have_badblock : Bool

pub record MountEntry : Type 0 where
  pub at : ℕ
  pub dev : ℕ
  pub start_block : ℕ
  pub end_block : ℤ
  pub mount : List ℕ

pub record Mounts : Type 0 where
  pub mounted : List MountEntry
  pub unmounted : List MountEntry
  pub dev_num : ℕ
  pub devices : ℕ → Device

-- What a mount and an unmount call for the device; `true` is U_SUCC.
pub record DeviceCalls : Type 0 where
  pub init : Device → Bool × Device
  pub init_device : Device → Bool × Device
  pub bad_block_recover : Device → Device
  pub release_device : Device → Bool × Device
  pub release : Device → Device

unfoldable pub same_text : List ℕ → List ℕ → Bool
same_text [] [] = true
same_text [] (y ∷ ys) = false
same_text (x ∷ xs) [] = false
same_text (x ∷ xs) (y ∷ ys) = (x == y) && same_text xs ys

-- The first entry that passes a test, and the list that is left when it is broken out.
unfoldable pub break_first :
    (MountEntry → Bool) → List MountEntry → Option (MountEntry × List MountEntry)
break_first test [] = none
break_first test (work ∷ rest) =
    let behind = break_first test rest in
    if test work
    then some (work, rest)
    else (elim behind [ none ↦ none | some r ↦ some (r.0, work ∷ r.1) ])

unfoldable pub is_listed : (MountEntry → Bool) → List MountEntry → Bool
is_listed test [] = false
is_listed test (work ∷ rest) =
    let behind = is_listed test rest in if test work then true else behind

abbrev pub is_at : ℕ → MountEntry → Bool
is_at at work = work.at == at

abbrev pub has_mount : List ℕ → MountEntry → Bool
has_mount mount work = same_text work.mount mount

-- A write to a device.
unfoldable pub update : (ℕ → Device) → ℕ → Device → ℕ → Device
update devices at dev = λ x. if x == at then dev else devices x

-- `true` is the result 0 and `false` a negative one.
unfoldable pub register_mount_table : MountEntry → Mounts → Bool × Mounts
register_mount_table mtb s =
    if is_listed (is_at mtb.at) s.mounted
    then (false, s)
    else if is_listed (is_at mtb.at) s.unmounted
    then (true, s)
    else (
      true,
      record s {
        unmounted = mtb ∷ s.unmounted;
        dev_num = s.dev_num + 1;
        devices = update s.devices mtb.dev (record (s.devices mtb.dev) { dev_num = s.dev_num + 1 });
      },
    )

unfoldable pub unregister_mount_table : ℕ → Mounts → Bool × Mounts
unregister_mount_table at s =
    let found = break_first (is_at at) s.unmounted in
    if is_listed (is_at at) s.mounted
    then (false, s)
    else (elim found [ none ↦ (false, s) | some r ↦ (true, record s { unmounted = r.1 }) ])

-- The conversion of an int to a u16.
unfoldable pub u16_of_int : ℤ → ℕ
u16_of_int (pos n) = u16 n
u16_of_int (negsuc n) = 65535 - u16 n

unfoldable pub set_range : MountEntry → Device → Device
unfolding u16_of_int
set_range mtb dev = record dev {
  par_start = u16 mtb.start_block;
  par_end =
      u16_of_int (elim mtb.end_block [ pos n ↦ pos n | negsuc n ↦ dev.total_blocks +ℤ negsuc n ]);
}

-- The mount of an entry that is broken out of the unmounted list, which leaves `rest`.
unfoldable pub mount_entry : DeviceCalls → Mounts → MountEntry → List MountEntry → Bool × Mounts
mount_entry calls s mtb rest =
    let first = calls.init (set_range mtb (s.devices mtb.dev)) in
    let second = calls.init_device (first.1) in
    if not (first.0)
    then (false, record s { devices = update s.devices mtb.dev (first.1) })
    else if not (second.0)
    then (false, record s { devices = update s.devices mtb.dev (second.1) })
    else (
      true,
      record s {
        mounted = mtb ∷ s.mounted;
        unmounted = rest;
        devices = update s.devices mtb.dev (second.1);
      },
    )

unfoldable pub mount : DeviceCalls → List ℕ → Mounts → Bool × Mounts
unfolding mount_entry
mount calls name s =
    let found = break_first (has_mount name) s.unmounted in
    if is_listed (has_mount name) s.mounted
    then (false, s)
    else (elim found [ none ↦ (false, s) | some r ↦ mount_entry calls s (r.0) (r.1) ])

unfoldable pub unmount_entry : DeviceCalls → Mounts → MountEntry → List MountEntry → Bool × Mounts
unmount_entry calls s mtb rest =
    let dev = s.devices mtb.dev in
    let first = if dev.have_badblock then calls.bad_block_recover dev else dev in
    let second = calls.release_device first in
    if not (first.ref_count == 0)
    then (false, record s { devices = update s.devices mtb.dev first })
    else if not (second.0)
    then (false, record s { devices = update s.devices mtb.dev (second.1) })
    else (
      true,
      record s {
        mounted = rest;
        unmounted = mtb ∷ s.unmounted;
        devices = update s.devices mtb.dev (calls.release (second.1));
      },
    )

unfoldable pub unmount : DeviceCalls → List ℕ → Mounts → Bool × Mounts
unfolding unmount_entry
unmount calls name s =
    let found = break_first (has_mount name) s.mounted in
    if is_listed (has_mount name) s.unmounted
    then (false, s)
    else (elim found [ none ↦ (false, s) | some r ↦ unmount_entry calls s (r.0) (r.1) ])

-- The first mounted entry that passes a test gives its device, with one more reference, of which there
-- are fewer than 2 ^ 32.
unfoldable pub get_device : (MountEntry → Bool) → Mounts → Option ℕ × Mounts
get_device test s =
    let found = break_first test s.mounted in
    elim found [
      | none ↦ (none, s)
      | some r ↦
          let dev = s.devices (r.0.dev) in
          (
            some (r.0.dev),
            record s {
              devices = update s.devices (r.0.dev) (record dev { ref_count = dev.ref_count + 1 });
            },
          )
    ]

unfoldable pub get_device_from_mount_point : List ℕ → Mounts → Option ℕ × Mounts
unfolding get_device
get_device_from_mount_point name s = get_device (has_mount name) s

-- The mount point is the first `len` characters of a path.
abbrev pub has_prefix : List ℕ → ℕ → MountEntry → Bool
has_prefix path len work = (length work.mount == len) && same_text (take len path) work.mount

unfoldable pub get_device_from_mount_point_ex : List ℕ → ℕ → Mounts → Option ℕ × Mounts
unfolding get_device
get_device_from_mount_point_ex path len s = get_device (has_prefix path len) s

-- The device has between 1 and 2 ^ 32 - 1 references.
unfoldable pub put_device : ℕ → Mounts → Mounts
put_device dev s = record s {
  devices =
      update s.devices dev (record (s.devices dev) { ref_count = (s.devices dev).ref_count - 1 });
}

unfoldable pub get_device_mount_point : ℕ → List MountEntry → Option (List ℕ)
get_device_mount_point dev [] = none
get_device_mount_point dev (work ∷ rest) =
    let behind = get_device_mount_point dev rest in
    if work.dev == dev then some work.mount else behind

abbrev pub slash : ℕ
slash = 47

-- The search for the next slash: the character before the position is a slash, or it is 0.
unfoldable pub back_to_slash : List ℕ → ℕ → ℕ
back_to_slash path zero = 0
back_to_slash path (suc p) =
    let further = back_to_slash path p in if get_or path p 0 == slash then suc p else further

-- The position after `place`, which is above 0.
unfoldable pub next_pos : List ℕ → ℕ → ℕ
unfolding back_to_slash
next_pos path place =
    if get_or path (place - 1) 0 == slash
    then back_to_slash path (place - 1)
    else back_to_slash path place

-- The loop, on fuel.
unfoldable pub match_loop : ℕ → List ℕ → ℕ → Mounts → ℕ × Mounts
match_loop zero path place s = (place, s)
match_loop (suc fuel) path place s =
    let r = get_device_from_mount_point_ex path place s in
    let later = match_loop fuel path (next_pos path place) (r.1) in
    if place == 0
    then (0, s)
    else (elim (r.0) [ none ↦ later | some dev ↦ (place, put_device dev (r.1)) ])

unfoldable pub get_matched_mount_point_size : List ℕ → Mounts → ℕ × Mounts
unfolding match_loop
get_matched_mount_point_size path s =
    let place = length path in
    if get_or path 0 0 == slash then match_loop (suc place) path place s else (0, s)
