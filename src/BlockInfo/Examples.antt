-- ===== src/BlockInfo/Examples.antt =====
-- The block information cache of src/uffs_blockinfo.c on concrete entries.
use esp_uffs.Prelude.{◌≡◌, refl, List, [], ◌∷◌, ◌++◌, none, some, arith, true, false, ◌⊎◌}
use esp_uffs.BadBlock.{crc_err, bad_block_init}
use esp_uffs.BlockInfo.{erased_tag, BlockInfo, ReadTag, block_info_load, block_info_get, all_pages}
use esp_uffs.BlockInfo.Expired.{expired_pages, IsInfo, block_info_load-IsInfo}
use esp_uffs.BlockInfo.Cache.{NonePass, cached, unused, IsHandedOut, Handed, block_info_get-Handed}

abbrev half : BlockInfo
half = record {
  id = 1;
  block = 12;
  spares =
      record { tag = erased_tag; expired = true }
      ∷ record { tag = erased_tag; expired = false }
      ∷ [];
  expired_count = 1;
  ref_count = 0;
}

half-IsInfo : IsInfo 2 half
unfolding expired_pages
half-IsInfo = record { all_pages = refl; counted = refl }

-- A flash on which every read fails its check.
abbrev broken : ReadTag
broken block page tag = (crc_err, tag)

block_info_load-IsInfo_example :
    IsInfo 2 ((block_info_load broken half 0 bad_block_init).1)
    × (expired_pages ((block_info_load broken half all_pages bad_block_init).1.spares) ≡ 0)
block_info_load-IsInfo_example = block_info_load-IsInfo broken 2 0 half bad_block_init half-IsInfo

-- The block 3 is not cached and takes the second entry of two.
abbrev two_entries : List BlockInfo
two_entries = record half { id = 2; block = 5; ref_count = 1 } ∷ half ∷ []

block_info_get-Handed_example :
    ((block_info_get two_entries 3 ≡ some (none, two_entries))
      × NonePass (cached 3) two_entries
      × NonePass unused two_entries)
    ⊎ ((pre : List BlockInfo) × (old : BlockInfo) × (post : List BlockInfo) × (w : BlockInfo)
        × (two_entries ≡ pre ++ old ∷ post)
        × IsHandedOut (block_info_get two_entries 3) (pre ++ post) w
        × Handed two_entries 3 old w)
block_info_get-Handed_example = block_info_get-Handed two_entries 3 (omega arith)
