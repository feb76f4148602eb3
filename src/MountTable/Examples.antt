-- ===== src/MountTable/Examples.antt =====
-- Two partitions of src/uffs_mtb.c, mounted at `/` and at `/a/`.
use esp_uffs.Prelude.{◌≡◌, refl, [], ◌∷◌, true, false}
use esp_uffs.MountTable.{
  same_text, pos, negsuc, Device, DeviceCalls, MountEntry, Mounts, is_listed, has_mount, mount,
  unmount, get_matched_mount_point_size,
}
use esp_uffs.MountTable.Names.{AreApart, Moves, mount-AreApart, unmount-AreApart}
use esp_uffs.MountTable.Longest.{IsLongest, get_matched_mount_point_size-IsLongest}

abbrev idle : Device
idle = record {
  total_blocks = 128;
  par_start = 0;
  par_end = 0;
  ref_count = 0;
  dev_num = 0;
  have_badblock = false;
}

abbrev root : MountEntry
root = record { at = 1; dev = 1; start_block = 0; end_block = pos 49; mount = 47 ∷ [] }

abbrev inner : MountEntry
inner = record {
  at = 2;
  dev = 2;
  start_block = 50;
  end_block = negsuc 0;
  mount = 47 ∷ 97 ∷ 47 ∷ [];
}

abbrev one_mounted : Mounts
one_mounted = record {
  mounted = root ∷ [];
  unmounted = inner ∷ [];
  dev_num = 2;
  devices = λ x. idle;
}

abbrev both_mounted : Mounts
both_mounted = record {
  mounted = inner ∷ root ∷ [];
  unmounted = [];
  dev_num = 2;
  devices = λ x. idle;
}

-- Every call succeeds and leaves the device alone.
abbrev good_calls : DeviceCalls
good_calls = record {
  init = λ d. (true, d);
  init_device = λ d. (true, d);
  bad_block_recover = λ d. d;
  release_device = λ d. (true, d);
  release = λ d. d;
}

one-AreApart : AreApart one_mounted.mounted
unfolding AreApart is_listed
one-AreApart = (refl, refl)

both-AreApart : AreApart both_mounted.mounted
unfolding AreApart is_listed same_text
both-AreApart = (refl, (refl, refl))

mount-AreApart_example :
    Moves
      (47 ∷ 97 ∷ 47 ∷ [])
      one_mounted
      (λ x. x.unmounted)
      (λ x. x.mounted)
      (mount good_calls (47 ∷ 97 ∷ 47 ∷ []) one_mounted)
mount-AreApart_example = mount-AreApart good_calls (47 ∷ 97 ∷ 47 ∷ []) one_mounted one-AreApart

unmount-AreApart_example :
    Moves
      (47 ∷ [])
      both_mounted
      (λ x. x.mounted)
      (λ x. x.unmounted)
      (unmount good_calls (47 ∷ []) both_mounted)
    × (((unmount good_calls (47 ∷ []) both_mounted).0 ≡ true)
        → is_listed (has_mount (47 ∷ [])) ((unmount good_calls (47 ∷ []) both_mounted).1.mounted)
          ≡ false)
unmount-AreApart_example = unmount-AreApart good_calls (47 ∷ []) both_mounted both-AreApart

get_matched_mount_point_size-IsLongest_example :
    IsLongest
      (47 ∷ 97 ∷ 47 ∷ 98 ∷ [])
      4
      both_mounted
      (get_matched_mount_point_size (47 ∷ 97 ∷ 47 ∷ 98 ∷ []) both_mounted)
get_matched_mount_point_size-IsLongest_example =
    get_matched_mount_point_size-IsLongest (47 ∷ 97 ∷ 47 ∷ 98 ∷ []) both_mounted refl
