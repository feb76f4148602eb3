-- ===== src/Public/Examples.antt =====
-- The searches of src/uffs_public.c in a block of two pages.
use esp_uffs.Prelude.{
  zero, suc, ◌≡◌, ◌≢◌, refl, [], ◌∷◌, true, false, arith, ◌⊎◌, if◌then◌else◌, ◌==◌,
}
use esp_uffs.BadBlock.{no_err, bad_block_init}
use esp_uffs.BlockInfo.{erased_tag, ReadTag}
use esp_uffs.BlockInfo.Expired.{expired_pages, IsInfo}
use esp_uffs.Public.{
  Loaded, load, get_tag, tag_is_good, invalid_page, find_page_in_block_with_page_id,
  find_best_page_in_block,
}
use esp_uffs.Public.Search.{
  FirstPage, HighestPage, in_order, find_page_in_block_with_page_id-FirstPage,
  find_best_page_in_block-HighestPage,
}

-- Every page of the flash holds the page with id 0.
abbrev copies : ReadTag
copies block page tag =
    (no_err, record erased_tag { dirty = 0; valid = 0; page_id = 0; seal_byte = 0 })

abbrev fresh : Loaded
fresh = record {
  bc = record {
    id = 1;
    block = 12;
    spares =
        record { tag = erased_tag; expired = true }
        ∷ record { tag = erased_tag; expired = true }
        ∷ [];
    expired_count = 2;
    ref_count = 1;
  };
  pending = bad_block_init;
}

fresh-IsInfo : IsInfo 2 fresh.bc
unfolding expired_pages
fresh-IsInfo = record { all_pages = refl; counted = refl }

find_page_in_block_with_page_id-FirstPage_example :
    FirstPage 2 0 0 (find_page_in_block_with_page_id copies 2 0 fresh)
find_page_in_block_with_page_id-FirstPage_example =
    find_page_in_block_with_page_id-FirstPage copies 2 0 fresh fresh-IsInfo (omega arith)
      (omega arith)

find_best_page_in_block-HighestPage_example :
    let r = find_best_page_in_block copies 2 0 fresh in
    let first = load copies fresh 0 in
    let second = load copies first 1 in
    let old = get_tag first.bc 0 in
    IsInfo 2 (r.1.bc)
    × (((tag_is_good old ≡ false) × (r.0 ≡ invalid_page))
        ⊎ ((tag_is_good old ≡ true)
            × (((zero ≢ suc zero) × (in_order 2 second.bc ≡ true) × (r.0 ≡ 0))
                ⊎ (((zero ≡ suc zero) ⊎ (in_order 2 second.bc ≡ false)) × HighestPage 1 0 old r))))
find_best_page_in_block-HighestPage_example =
    find_best_page_in_block-HighestPage copies 2 0 fresh fresh-IsInfo (omega arith) (omega arith)

-- Page 0 of every block is written and the other pages are erased.
abbrev begun : ReadTag
begun block page tag = if page == 0 then copies block page tag else (no_err, erased_tag)
