-- ===== src/Public/Search.antt =====
-- The page searches of src/uffs_public.c: which page they find, and when there is none.
use esp_uffs.Prelude.{
  ℕ, zero, suc, ◌+◌, ◌-◌, ◌<◌, ◌≤◌, ◌≡◌, ◌≢◌, refl, sym, ◌∙◌, ap, ◌⊎◌, inl, inr, Bool, true, false,
  ◌&&◌, ◌==◌, ==_iff, arith, Bool-cases, subst,
}
use esp_uffs.BlockInfo.{ReadTag, Tags, BlockInfo, all_pages}
use esp_uffs.BlockInfo.Expired.{IsInfo}
use esp_uffs.Public.{
  invalid_page, get_tag, tag_is_good, Loaded, load, page_id_loop, find_page_in_block_with_page_id,
  best_loop, find_best_page_in_block,
}
use esp_uffs.Public.Pages.{load-IsInfo}
use esp_uffs.Public.Spares.{load-other, spare_at}

-- A load of another page leaves a tag alone.
get_tag-load :
    (read_tag : ReadTag) (s : Loaded) (page j : ℕ)
    → page < all_pages
    → page ≢ j
    → get_tag (load read_tag s page).bc j ≡ get_tag s.bc j
unfolding get_tag spare_at
get_tag-load read_tag s page j small ne = ap (λ x. x.tag) (load-other read_tag s page j small ne)

abbrev pub has_page_id : ℕ → Tags → Bool
has_page_id page_id tag = tag_is_good tag && (tag.page_id == page_id)

page_id_loop-other :
    (read_tag : ReadTag) (rounds page page_id j : ℕ) (s : Loaded)
    → page + rounds ≤ all_pages
    → j < page
    → get_tag ((page_id_loop read_tag rounds page page_id s).1.bc) j ≡ get_tag s.bc j
unfolding page_id_loop
page_id_loop-other read_tag zero page page_id j s small below = refl
page_id_loop-other read_tag (suc rounds) page page_id j s small below =
    let next = load read_tag s page in
    let kept = get_tag-load read_tag s page j (omega arith) (omega arith) in
    elim (Bool-cases (has_page_id page_id (get_tag next.bc page))) [
      | inl t ↦ rw t kept
      | inr f ↦ rw f (
          page_id_loop-other read_tag rounds (page + 1) page_id j next (omega arith) (omega arith)
          ∙ kept)
    ]

-- The first page from `from` on with the page id, or UFFS_INVALID_PAGE where there is none.
abbrev pub FirstPage : ℕ → ℕ → ℕ → ℕ × Loaded → Type 0
FirstPage pages from page_id r =
    IsInfo pages (r.1.bc)
    × (((r.0 ≡ invalid_page)
          × ((j : ℕ) → from ≤ j → j < pages → has_page_id page_id (get_tag (r.1.bc) j) ≡ false))
        ⊎ ((from ≤ r.0)
            × (r.0 < pages)
            × (has_page_id page_id (get_tag (r.1.bc) (r.0)) ≡ true)
            × ((j : ℕ) → from ≤ j → j < r.0 → has_page_id page_id (get_tag (r.1.bc) j) ≡ false)))

none_from :
    (bc : BlockInfo) (page_id page end : ℕ)
    → has_page_id page_id (get_tag bc page) ≡ false
    → ((j : ℕ) → page + 1 ≤ j → j < end → has_page_id page_id (get_tag bc j) ≡ false)
    → (j : ℕ) → page ≤ j
    → j < end
    → has_page_id page_id (get_tag bc j) ≡ false
none_from bc page_id page end here above j a b = elim (Bool-cases (j == page)) [
  | inl t ↦ subst (λ k. has_page_id page_id (get_tag bc k) ≡ false) (sym ((==_iff j page).0 t)) here
  | inr f ↦ let n : j ≢ page = ground arith in above j (omega arith) b
]

page_id_loop-FirstPage :
    (read_tag : ReadTag) (pages rounds page page_id : ℕ) (s : Loaded)
    → IsInfo pages s.bc
    → page + rounds ≡ pages
    → pages ≤ invalid_page
    → FirstPage pages page page_id (page_id_loop read_tag rounds page page_id s)
unfolding page_id_loop
page_id_loop-FirstPage read_tag pages zero page page_id s v fits small =
    (v, inl (refl, λ j a b. absurd (omega arith)))
page_id_loop-FirstPage read_tag pages (suc rounds) page page_id s v fits small =
    let next = load read_tag s page in
    let w = load-IsInfo read_tag pages s page v in
    let (good, later) =
      page_id_loop-FirstPage read_tag pages rounds (page + 1) page_id next w (omega arith) small in
    elim (Bool-cases (has_page_id page_id (get_tag next.bc page))) [
      | inl t ↦ rw t (w, inr (omega arith, omega arith, t, λ j a b. absurd (omega arith)))
      | inr f ↦
          let kept =
            page_id_loop-other read_tag rounds (page + 1) page_id page next (omega arith)
              (omega arith) in
          let here = ap (has_page_id page_id) kept ∙ f in
          rw f (
            good,
            (elim later [
              | inl (e, h) ↦ inl (e, λ j a b. none_from _ page_id page pages here h j a b)
              | inr (c, d, e, h) ↦
                  inr (omega arith, d, e, λ j a b. none_from _ page_id page _ here h j a b)
            ]),
          )
    ]

-- For a page id up to the number of pages, which is at most 65534, uffs_FindPageInBlockWithPageId
-- ends, keeps expired_count right, and returns the first page from the page number equal to the
-- page id on whose tag is good and has that page id, and UFFS_INVALID_PAGE exactly when there is
-- no such page.
pub find_page_in_block_with_page_id-FirstPage :
    (read_tag : ReadTag) (pages page_id : ℕ) (s : Loaded)
    → IsInfo pages s.bc
    → page_id ≤ pages
    → pages ≤ invalid_page
    → FirstPage pages page_id page_id (find_page_in_block_with_page_id read_tag pages page_id s)
unfolding find_page_in_block_with_page_id
find_page_in_block_with_page_id-FirstPage read_tag pages page_id s v h small =
    page_id_loop-FirstPage read_tag pages (pages - page_id) page_id page_id s v (omega arith) small

-- A good tag of the same page of the same owner.
abbrev pub same_page : Tags → Tags → Bool
same_page old tag =
    tag_is_good tag
    && (tag.page_id == old.page_id)
    && (tag.parent == old.parent)
    && (tag.serial == old.serial)

best_loop-other :
    (read_tag : ReadTag) (above page j : ℕ) (old : Tags) (s : Loaded)
    → page + above < j
    → j ≤ all_pages
    → get_tag ((best_loop read_tag above page old s).1.bc) j ≡ get_tag s.bc j
unfolding best_loop
best_loop-other read_tag zero page j old s beyond small = refl
best_loop-other read_tag (suc above) page j old s beyond small =
    let next = load read_tag s (page + suc above) in
    let kept = get_tag-load read_tag s (page + suc above) j (omega arith) (omega arith) in
    elim (Bool-cases (same_page old (get_tag next.bc (page + suc above)))) [
      | inl t ↦ rw t kept
      | inr f ↦ rw f (best_loop-other read_tag above page j old next (omega arith) small ∙ kept)
    ]

-- The highest page up to `top` that has the tag of the same page; `page` where there is none above it.
abbrev pub HighestPage : ℕ → ℕ → Tags → ℕ × Loaded → Type 0
HighestPage top page old r =
    ((j : ℕ) → r.0 < j → j ≤ top → same_page old (get_tag (r.1.bc) j) ≡ false)
    × ((r.0 ≡ page)
        ⊎ ((page < r.0) × (r.0 ≤ top) × (same_page old (get_tag (r.1.bc) (r.0)) ≡ true)))

best_loop-HighestPage :
    (read_tag : ReadTag) (pages above page : ℕ) (old : Tags) (s : Loaded)
    → IsInfo pages s.bc
    → page + above < pages
    → pages ≤ all_pages
    → let r = best_loop read_tag above page old s in
      IsInfo pages (r.1.bc) × HighestPage (page + above) page old r
unfolding best_loop
best_loop-HighestPage read_tag pages zero page old s v fits small =
    (v, ((λ j a b. absurd (omega arith)), inl refl))
best_loop-HighestPage read_tag pages (suc above) page old s v fits small =
    let top = page + suc above in
    let next = load read_tag s top in
    let w = load-IsInfo read_tag pages s top v in
    let (good, (none_above, which)) =
      best_loop-HighestPage read_tag pages above page old next w (omega arith) small in
    elim (Bool-cases (same_page old (get_tag next.bc top))) [
      | inl t ↦ rw t (w, ((λ j a b. absurd (omega arith)), inr (omega arith, omega arith, t)))
      | inr f ↦
          let kept = best_loop-other read_tag above page top old next (omega arith) (omega arith) in
          let here = ap (same_page old) kept ∙ f in
          rw f (
            good,
            (
              (λ j a b. elim (Bool-cases (j == top)) [
                | inl e ↦
                    subst
                      (λ k.
                        same_page old (get_tag ((best_loop read_tag above page old next).1.bc) k)
                        ≡ false)
                      (sym ((==_iff j top).0 e)) here
                | inr e ↦ let n : j ≢ top = ground arith in none_above j a (omega arith)
              ]),
              (elim which [ inl e ↦ inl e | inr (a, b, c) ↦ inr (a, omega arith, c) ]),
            ),
          )
    ]

-- The last page has a good tag with the last page id: the pages of the block are in order.
abbrev pub in_order : ℕ → BlockInfo → Bool
in_order pages bc = has_page_id (pages - 1) (get_tag bc (pages - 1))

-- For a page of a block of at most 65534 pages, uffs_FindBestPageInBlock ends, keeps expired_count
-- right, and returns this: UFFS_INVALID_PAGE if the tag of the page is not good; the page itself
-- if it is not the last page and the last page has a good tag with the last page id; and otherwise
-- the highest page from it on that is the page or has a good tag with the same page id, parent and
-- serial.
pub find_best_page_in_block-HighestPage :
    (read_tag : ReadTag) (pages page : ℕ) (s : Loaded)
    → IsInfo pages s.bc
    → page < pages
    → pages ≤ invalid_page
    → let r = find_best_page_in_block read_tag pages page s in
      let first = load read_tag s page in
      let second = load read_tag first (pages - 1) in
      let old = get_tag first.bc page in
      IsInfo pages (r.1.bc)
      × (((tag_is_good old ≡ false) × (r.0 ≡ invalid_page))
          ⊎ ((tag_is_good old ≡ true)
              × (((page ≢ pages - 1) × (in_order pages second.bc ≡ true) × (r.0 ≡ page))
                  ⊎ (((page ≡ pages - 1) ⊎ (in_order pages second.bc ≡ false))
                      × HighestPage (pages - 1) page old r))))
unfolding find_best_page_in_block
find_best_page_in_block-HighestPage read_tag pages page s v h small =
    let first = load read_tag s page in
    let v1 = load-IsInfo read_tag pages s page v in
    let second = load read_tag first (pages - 1) in
    let v2 = load-IsInfo read_tag pages first (pages - 1) v1 in
    let old = get_tag first.bc page in
    let (good_info, highest) =
      best_loop-HighestPage read_tag pages (pages - 1 - page) page old second v2 (omega arith)
        (omega arith) in
    let top : page + (pages - 1 - page) ≡ pages - 1 = omega arith in
    let asked : (page == invalid_page) ≡ false = ground arith in
    elim (Bool-cases (tag_is_good old)) [
      | inr bad ↦ rw (asked, bad) (v1, inl (refl, refl))
      | inl good ↦ elim (Bool-cases (page == pages - 1)) [
        | inl t ↦
            let last : page ≡ pages - 1 = ground arith in
            rw (asked, good, t)
              (v1, inr (refl, inr (inl last, ((λ j a b. absurd (omega arith)), inl refl))))
        | inr f ↦
            let ne : page ≢ pages - 1 = ground arith in
            elim (Bool-cases (in_order pages second.bc)) [
              | inl t ↦ rw (asked, good, f, t) (v2, inr (refl, inl (ne, refl, refl)))
              | inr g ↦
                  rw (asked, good, f, g)
                    (
                      good_info,
                      inr (
                        refl,
                        inr (
                          inr refl,
                          subst
                              (λ k.
                                HighestPage k page old
                                  (best_loop read_tag (pages - 1 - page) page old second))
                              top highest,
                        ),
                      ),
                    )
            ]
      ]
    ]
