-- ===== src/Public/Again.antt =====
-- A page that was read is not read again: in an entry of which every page was read, the loads of the
-- searches in src/uffs_public.c change nothing.
use esp_uffs.Prelude.{
  ap, ==_iff, ◌≢◌, sym, subst, ◌∙◌, ℕ, zero, suc, ◌+◌, ◌-◌, ◌<◌, ◌≤◌, ◌≡◌, refl, List, [], ◌∷◌,
  true, false, ◌&&◌, ◌==◌, arith, get_or, inl, inr, Bool-cases, length,
}
use esp_uffs.BadBlock.{PendingList}
use esp_uffs.BlockInfo.{
  PageSpare, BlockInfo, Tags, ReadTag, load_page, block_info_load_page, block_info_load, all_pages,
}
use esp_uffs.BlockInfo.Expired.{IsInfo, expired_pages, block_info_load_all-IsInfo}
use esp_uffs.Public.{
  Loaded, load, get_tag, tag_is_good, invalid_page, best_loop, find_best_page_in_block,
  page_id_loop, find_page_in_block_with_page_id,
}
use esp_uffs.Public.Spares.{spare_at, no_spare}

load_page-again :
    (read_tag : ReadTag) (block page : ℕ) (xs : List PageSpare) (at count : ℕ) (p : PendingList)
    → (get_or xs at no_spare).expired ≡ false
    → load_page read_tag block page xs at count p ≡ (true, xs, count, p)
unfolding load_page
load_page-again read_tag block page [] at count p f = absurd (ground (arith, f))
load_page-again read_tag block page (spare ∷ rest) zero count p f = rw f refl
load_page-again read_tag block page (spare ∷ rest) (suc at) count p f =
    rw (load_page-again read_tag block page rest at count p f) refl

-- Every page was read.
abbrev pub IsRead : ℕ → BlockInfo → Type 0
IsRead pages bc = (j : ℕ) → j < pages → (spare_at bc j).expired ≡ false

pub load-again :
    (read_tag : ReadTag) (s : Loaded) (page : ℕ)
    → page < all_pages
    → (spare_at s.bc page).expired ≡ false
    → load read_tag s page ≡ s
unfolding load block_info_load block_info_load_page spare_at
load-again read_tag s page small f =
    let one : (page == all_pages) ≡ false = ground arith in
    rw one (
      rw (load_page-again read_tag s.bc.block page s.bc.spares page s.bc.expired_count s.pending f)
        refl)

none_expired :
    (xs : List PageSpare) (j : ℕ)
    → expired_pages xs ≡ 0
    → j < length xs
    → (get_or xs j no_spare).expired ≡ false
unfolding expired_pages
none_expired [] j e h = absurd (omega arith)
none_expired (x ∷ xs) zero e h = elim (Bool-cases x.expired) [
  | inl t ↦ absurd (ground (arith, t))
  | inr f ↦ f
]
none_expired (x ∷ xs) (suc j) e h = elim (Bool-cases x.expired) [
  | inl t ↦ absurd (ground (arith, t))
  | inr f ↦ none_expired xs j (ground (arith, f)) (omega arith)
]

pub load-IsRead :
    (read_tag : ReadTag) (pages : ℕ) (s : Loaded)
    → IsInfo pages s.bc
    → IsInfo pages (load read_tag s all_pages).bc × IsRead pages (load read_tag s all_pages).bc
unfolding load block_info_load spare_at
load-IsRead read_tag pages s v =
    let (w, e) = block_info_load_all-IsInfo read_tag pages s.bc s.pending v in
    (w, λ j h. none_expired _ j e (omega (arith, w.all_pages)))

best_loop-again :
    (read_tag : ReadTag) (pages above page : ℕ) (old : Tags) (s : Loaded)
    → IsRead pages s.bc
    → page + above < pages
    → pages ≤ all_pages
    → (best_loop read_tag above page old s).1 ≡ s
unfolding best_loop
best_loop-again read_tag pages zero page old s v fits small = refl
best_loop-again read_tag pages (suc above) page old s v fits small =
    let same = load-again read_tag s (page + suc above) (omega arith) (v _ (omega arith)) in
    let later = best_loop-again read_tag pages above page old s v (omega arith) small in
    let tag = get_tag s.bc (page + suc above) in
    let test =
      tag_is_good tag
      && (tag.page_id == old.page_id)
      && (tag.parent == old.parent)
      && (tag.serial == old.serial) in
    rw same (elim (Bool-cases test) [ inl t ↦ rw t refl | inr f ↦ rw f later ])

pub find_best_page_in_block-again :
    (read_tag : ReadTag) (pages page : ℕ) (s : Loaded)
    → IsRead pages s.bc
    → page < pages
    → pages ≤ all_pages
    → (find_best_page_in_block read_tag pages page s).1 ≡ s
unfolding find_best_page_in_block
find_best_page_in_block-again read_tag pages page s v h small =
    let here = load-again read_tag s page (omega arith) (v page h) in
    let last = load-again read_tag s (pages - 1) (omega arith) (v _ (omega arith)) in
    let old = get_tag s.bc page in
    let tag = get_tag s.bc (pages - 1) in
    let search =
      best_loop-again read_tag pages (pages - 1 - page) page old s v (omega arith) small in
    rw here (
      rw last (elim (Bool-cases (page == invalid_page)) [
        | inl a ↦ rw a refl
        | inr a ↦ elim (Bool-cases (tag_is_good old)) [
          | inr b ↦ rw (a, b) refl
          | inl b ↦ elim (Bool-cases (page == pages - 1)) [
            | inl t ↦ rw (a, b, t) refl
            | inr f ↦ elim (Bool-cases (tag_is_good tag && (tag.page_id == pages - 1))) [
              | inl t ↦ rw (a, b, f, t) refl
              | inr g ↦ rw (a, b, f, g) search
            ]
          ]
        ]
      ]))

page_id_loop-again :
    (read_tag : ReadTag) (pages rounds page page_id : ℕ) (s : Loaded)
    → IsRead pages s.bc
    → page + rounds ≤ pages
    → pages ≤ all_pages
    → (page_id_loop read_tag rounds page page_id s).1 ≡ s
unfolding page_id_loop
page_id_loop-again read_tag pages zero page page_id s v fits small = refl
page_id_loop-again read_tag pages (suc rounds) page page_id s v fits small =
    let same = load-again read_tag s page (omega arith) (v page (omega arith)) in
    let later =
      page_id_loop-again read_tag pages rounds (page + 1) page_id s v (omega arith) small in
    let next = load read_tag s page in
    let tag = get_tag next.bc page in
    elim (Bool-cases (tag_is_good tag && (tag.page_id == page_id))) [
      | inl t ↦ rw t same
      | inr f ↦ rw f (ap (λ x. (page_id_loop read_tag rounds (page + 1) page_id x).1) same ∙ later)
    ]

pub find_page_in_block_with_page_id-again :
    (read_tag : ReadTag) (pages page_id : ℕ) (s : Loaded)
    → IsRead pages s.bc
    → page_id ≤ pages
    → pages ≤ all_pages
    → (find_page_in_block_with_page_id read_tag pages page_id s).1 ≡ s
unfolding find_page_in_block_with_page_id
find_page_in_block_with_page_id-again read_tag pages page_id s v h small =
    page_id_loop-again read_tag pages (pages - page_id) page_id page_id s v (omega arith) small

-- The search of a block that is all read tells that no page has the page id.
page_id_loop-none :
    (read_tag : ReadTag) (pages rounds page page_id : ℕ) (s : Loaded)
    → IsRead pages s.bc
    → page + rounds ≤ pages
    → pages ≤ invalid_page
    → (page_id_loop read_tag rounds page page_id s).0 ≡ invalid_page
    → (j : ℕ) → page ≤ j
    → j < page + rounds
    → tag_is_good (get_tag s.bc j) && ((get_tag s.bc j).page_id == page_id) ≡ false
unfolding page_id_loop
page_id_loop-none read_tag pages zero page page_id s v fits small e j a b = absurd (omega arith)
page_id_loop-none read_tag pages (suc rounds) page page_id s v fits small e j a b =
    let same = load-again read_tag s page (omega arith) (v page (omega arith)) in
    let next = load read_tag s page in
    let tag = get_tag next.bc page in
    elim (Bool-cases (tag_is_good tag && (tag.page_id == page_id))) [
      | inl t ↦ let at : page ≡ invalid_page = rw t at e in absurd (omega arith)
      | inr f ↦
          let left : (page_id_loop read_tag rounds (page + 1) page_id next).0 ≡ invalid_page =
            rw f at e in
          let left' =
            ap (λ x. (page_id_loop read_tag rounds (page + 1) page_id x).0) (sym same) ∙ left in
          elim (Bool-cases (page == j)) [
            | inl t ↦
                let at = (==_iff page j).0 t in
                subst
                  (λ k.
                    tag_is_good (get_tag s.bc k) && ((get_tag s.bc k).page_id == page_id) ≡ false)
                  at
                  (ap
                      (λ x.
                        tag_is_good (get_tag x.bc page) && ((get_tag x.bc page).page_id == page_id))
                      (sym same)
                    ∙ f)
            | inr n ↦
                let ne : page ≢ j = ground arith in
                page_id_loop-none read_tag pages rounds (page + 1) page_id s v (omega arith) small
                  left' j (omega arith) (omega arith)
          ]
    ]

pub find_page_in_block_with_page_id-none :
    (read_tag : ReadTag) (pages page_id : ℕ) (s : Loaded)
    → IsRead pages s.bc
    → page_id ≤ pages
    → pages ≤ invalid_page
    → (find_page_in_block_with_page_id read_tag pages page_id s).0 ≡ invalid_page
    → (j : ℕ) → page_id ≤ j
    → j < pages
    → tag_is_good (get_tag s.bc j) && ((get_tag s.bc j).page_id == page_id) ≡ false
unfolding find_page_in_block_with_page_id
find_page_in_block_with_page_id-none read_tag pages page_id s v h small e j a b =
    page_id_loop-none read_tag pages (pages - page_id) page_id page_id s v (omega arith) small e j a
      (omega arith)
