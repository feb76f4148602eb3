-- ===== src/Public/Pages.antt =====
-- What the page searches of src/uffs_public.c find.
use esp_uffs.Prelude.{
  ℕ, zero, suc, ◌+◌, ◌-◌, ◌<◌, ◌≤◌, ◌≡◌, ◌≢◌, refl, ◌⊎◌, inl, inr, true, false, ◌&&◌, ◌==◌, arith,
  Bool-cases,
}
use esp_uffs.BlockInfo.{ReadTag, Tags}
use esp_uffs.BlockInfo.Expired.{IsInfo, block_info_load-IsInfo}
use esp_uffs.Public.{
  invalid_page, get_tag, tag_is_good, Loaded, load, page_id_loop, find_page_in_block_with_page_id,
  best_loop, find_best_page_in_block,
}

pub load-IsInfo :
    (read_tag : ReadTag) (pages : ℕ) (s : Loaded) (page : ℕ)
    → IsInfo pages s.bc
    → IsInfo pages (load read_tag s page).bc
unfolding load
load-IsInfo read_tag pages s page v =
    (block_info_load-IsInfo read_tag pages page s.bc s.pending v).0

-- What is promised of a search for a page id from `from` on.
abbrev pub FoundPage : ℕ → ℕ → ℕ → ℕ × Loaded → Type 0
FoundPage pages from page_id r =
    IsInfo pages (r.1.bc)
    × ((r.0 ≡ invalid_page)
        ⊎ ((from ≤ r.0)
            × (r.0 < pages)
            × (tag_is_good (get_tag (r.1.bc) (r.0)) ≡ true)
            × ((get_tag (r.1.bc) (r.0)).page_id ≡ page_id)))

page_id_loop-FoundPage :
    (read_tag : ReadTag) (pages rounds page page_id : ℕ) (s : Loaded)
    → IsInfo pages s.bc
    → page + rounds ≤ pages
    → FoundPage pages page page_id (page_id_loop read_tag rounds page page_id s)
unfolding page_id_loop
page_id_loop-FoundPage read_tag pages zero page page_id s v fits = (v, inl refl)
page_id_loop-FoundPage read_tag pages (suc rounds) page page_id s v fits =
    let next = load read_tag s page in
    let good = load-IsInfo read_tag pages s page v in
    let (w, later) =
      page_id_loop-FoundPage read_tag pages rounds (page + 1) page_id next good (omega arith) in
    let test = tag_is_good (get_tag next.bc page) && ((get_tag next.bc page).page_id == page_id) in
    elim (Bool-cases test) [
      | inl t ↦ rw t (good, inr (omega arith, omega arith, ground arith, ground arith))
      | inr f ↦
          rw f (w, (elim later [ inl e ↦ inl e | inr h ↦ inr (omega (arith, h.0), h.1, h.2, h.3) ]))
    ]

-- For a page id up to the number of pages, uffs_FindPageInBlockWithPageId ends, keeps
-- expired_count right, and returns UFFS_INVALID_PAGE or a page of the block, not below the page
-- id, whose tag is good and has that page id.
pub find_page_in_block_with_page_id-FoundPage :
    (read_tag : ReadTag) (pages page_id : ℕ) (s : Loaded)
    → IsInfo pages s.bc
    → page_id ≤ pages
    → FoundPage pages page_id page_id (find_page_in_block_with_page_id read_tag pages page_id s)
unfolding find_page_in_block_with_page_id
find_page_in_block_with_page_id-FoundPage read_tag pages page_id s v h =
    page_id_loop-FoundPage read_tag pages (pages - page_id) page_id page_id s v (omega arith)

-- A page above `page` whose tag repeats the page id, the parent and the serial of `old`.
abbrev pub BetterPage : ℕ → ℕ → Tags → ℕ × Loaded → Type 0
BetterPage pages page old r =
    (page < r.0)
    × (r.0 < pages)
    × (tag_is_good (get_tag (r.1.bc) (r.0)) ≡ true)
    × ((get_tag (r.1.bc) (r.0)).page_id ≡ old.page_id)
    × ((get_tag (r.1.bc) (r.0)).parent ≡ old.parent)
    × ((get_tag (r.1.bc) (r.0)).serial ≡ old.serial)

best_loop-BetterPage :
    (read_tag : ReadTag) (pages above page : ℕ) (old : Tags) (s : Loaded)
    → IsInfo pages s.bc
    → page + above < pages
    → IsInfo pages ((best_loop read_tag above page old s).1.bc)
      × (((best_loop read_tag above page old s).0 ≡ page)
          ⊎ BetterPage pages page old (best_loop read_tag above page old s))
unfolding best_loop
best_loop-BetterPage read_tag pages zero page old s v fits = (v, inl refl)
best_loop-BetterPage read_tag pages (suc above) page old s v fits =
    let next = load read_tag s (page + suc above) in
    let good = load-IsInfo read_tag pages s (page + suc above) v in
    let later = best_loop-BetterPage read_tag pages above page old next good (omega arith) in
    let tag = get_tag next.bc (page + suc above) in
    let test =
      tag_is_good tag
      && (tag.page_id == old.page_id)
      && (tag.parent == old.parent)
      && (tag.serial == old.serial) in
    elim (Bool-cases test) [
      | inl t ↦ rw t (
        good,
        inr (omega arith, omega arith, ground arith, ground arith, ground arith, ground arith),
      )
      | inr f ↦ rw f later
    ]

-- For a page of the block other than UFFS_INVALID_PAGE, uffs_FindBestPageInBlock ends, keeps
-- expired_count right, and returns UFFS_INVALID_PAGE if the tag of the page is not good, and
-- otherwise the page itself or a higher page of the block whose good tag has the same page id,
-- parent and serial.
pub find_best_page_in_block-BetterPage :
    (read_tag : ReadTag) (pages page : ℕ) (s : Loaded)
    → IsInfo pages s.bc
    → page < pages
    → page ≢ invalid_page
    → let r = find_best_page_in_block read_tag pages page s in
      let old = get_tag (load read_tag s page).bc page in
      IsInfo pages (r.1.bc)
      × (((tag_is_good old ≡ false) × (r.0 ≡ invalid_page))
          ⊎ ((tag_is_good old ≡ true) × ((r.0 ≡ page) ⊎ BetterPage pages page old r)))
unfolding find_best_page_in_block
find_best_page_in_block-BetterPage read_tag pages page s v h real =
    let first = load read_tag s page in
    let v1 = load-IsInfo read_tag pages s page v in
    let second = load read_tag first (pages - 1) in
    let v2 = load-IsInfo read_tag pages first (pages - 1) v1 in
    let old = get_tag first.bc page in
    let tag = get_tag second.bc (pages - 1) in
    let search =
      best_loop-BetterPage read_tag pages (pages - 1 - page) page old second v2 (omega arith) in
    let asked : (page == invalid_page) ≡ false = ground arith in
    elim (Bool-cases (tag_is_good old)) [
      | inr bad ↦ rw (asked, bad) (v1, inl (refl, refl))
      | inl good ↦ elim (Bool-cases (page == pages - 1)) [
        | inl t ↦ rw (asked, good, t) (v1, inr (refl, inl refl))
        | inr f ↦ elim (Bool-cases (tag_is_good tag && (tag.page_id == pages - 1))) [
          | inl t ↦ rw (asked, good, f, t) (v2, inr (refl, inl refl))
          | inr g ↦ rw (asked, good, f, g) (search.0, inr (refl, search.1))
        ]
      ]
    ]
