-- ===== src/Public/Spares.antt =====
-- What loading one page does to the pages of an entry, and what the erased test reports.
use esp_uffs.Prelude.{
  ℕ, zero, suc, ◌<◌, ◌≡◌, ◌≢◌, refl, ◌∙◌, List, [], ◌∷◌, Bool, true, false, not, ◌&&◌, ◌==◌, arith,
  get_or, inl, inr, ap, Bool-cases,
}
use esp_uffs.BadBlock.{PendingList}
use esp_uffs.BlockInfo.{
  PageSpare, BlockInfo, ReadTag, erased_tag, load_page, block_info_load_page, block_info_load,
  flash_have_err, all_pages,
}
use esp_uffs.BlockInfo.Expired.{IsInfo}
use esp_uffs.Public.{Loaded, load, get_tag}
use esp_uffs.Public.Pages.{load-IsInfo}
use esp_uffs.Public.Erased.{is_erased_tag, is_page_erased}

abbrev pub no_spare : PageSpare
no_spare = record { tag = erased_tag; expired = true }

unfoldable pub spare_at : BlockInfo → ℕ → PageSpare
spare_at bc page = get_or bc.spares page no_spare

-- The page was read and its tag is erased.
unfoldable pub is_free_spare : PageSpare → Bool
is_free_spare spare = not spare.expired && is_erased_tag spare.tag

load_page-expired_at :
    (read_tag : ReadTag) (block page : ℕ) (xs : List PageSpare) (at count : ℕ) (p : PendingList)
    → let r = load_page read_tag block page xs at count p in
      (get_or (r.1) at no_spare).expired ≡ not (r.0)
unfolding load_page
load_page-expired_at read_tag block page [] at count p = refl
load_page-expired_at read_tag block page (spare ∷ rest) zero count p =
    elim (Bool-cases spare.expired) [
      | inl t ↦ elim (Bool-cases (flash_have_err (read_tag block page spare.tag).0)) [
        | inl e ↦ simp (t, e)
        | inr e ↦ rw (t, e) refl
      ]
      | inr f ↦ simp f
    ]
load_page-expired_at read_tag block page (spare ∷ rest) (suc at) count p =
    load_page-expired_at read_tag block page rest at count p

load_page-other :
    (read_tag : ReadTag) (block page : ℕ) (xs : List PageSpare) (at count j : ℕ) (p : PendingList)
    → at ≢ j
    → get_or (load_page read_tag block page xs at count p).1 j no_spare ≡ get_or xs j no_spare
unfolding load_page
load_page-other read_tag block page [] at count j p n = refl
load_page-other read_tag block page (spare ∷ rest) zero count zero p n = absurd (n refl)
load_page-other read_tag block page (spare ∷ rest) zero count (suc j) p n =
    elim (Bool-cases spare.expired) [
      | inl t ↦ elim (Bool-cases (flash_have_err (read_tag block page spare.tag).0)) [
        | inl e ↦ rw (t, e) refl
        | inr e ↦ rw (t, e) refl
      ]
      | inr f ↦ rw f refl
    ]
load_page-other read_tag block page (spare ∷ rest) (suc at) count zero p n = refl
load_page-other read_tag block page (spare ∷ rest) (suc at) count (suc j) p n =
    load_page-other read_tag block page rest at count j p (λ e. n (ap suc e))

pub load-other :
    (read_tag : ReadTag) (s : Loaded) (page j : ℕ)
    → page < all_pages
    → page ≢ j
    → spare_at (load read_tag s page).bc j ≡ spare_at s.bc j
unfolding load block_info_load block_info_load_page spare_at
load-other read_tag s page j small n =
    let one : (page == all_pages) ≡ false = ground arith in
    rw one
      (load_page-other read_tag s.bc.block page s.bc.spares page s.bc.expired_count j s.pending n)

not-not : (b : Bool) → not (not b) ≡ b
not-not true = refl
not-not false = refl

pub is_page_erased-is_free_spare :
    (read_tag : ReadTag) (page : ℕ) (s : Loaded)
    → page < all_pages
    → let r = is_page_erased read_tag page s in r.0 ≡ is_free_spare (spare_at (r.1.bc) page)
unfolding is_page_erased block_info_load block_info_load_page spare_at is_free_spare get_tag
is_page_erased-is_free_spare read_tag page s small =
    let one : (page == all_pages) ≡ false = ground arith in
    let e =
      load_page-expired_at read_tag s.bc.block page s.bc.spares page s.bc.expired_count s.pending in
    let ok = (load_page read_tag s.bc.block page s.bc.spares page s.bc.expired_count s.pending).0 in
    rw one (rw e (rw (not-not ok) refl))

-- One round of the loops over pages: the page is loaded and tested, which loads it again if the
-- first load failed.
abbrev pub check_page : ReadTag → Loaded → ℕ → Loaded
check_page read_tag s page = (is_page_erased read_tag page (load read_tag s page)).1

pub check_page-other :
    (read_tag : ReadTag) (s : Loaded) (page j : ℕ)
    → page < all_pages
    → page ≢ j
    → spare_at (check_page read_tag s page).bc j ≡ spare_at s.bc j
unfolding is_page_erased load
check_page-other read_tag s page j small n =
    load-other read_tag (load read_tag s page) page j small n ∙ load-other read_tag s page j small n

pub check_page-IsInfo :
    (read_tag : ReadTag) (pages : ℕ) (s : Loaded) (page : ℕ)
    → IsInfo pages s.bc
    → IsInfo pages (check_page read_tag s page).bc
unfolding is_page_erased load
check_page-IsInfo read_tag pages s page v =
    load-IsInfo read_tag pages (load read_tag s page) page (load-IsInfo read_tag pages s page v)
