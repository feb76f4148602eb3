-- ===== src/BlockInfo/Expired.antt =====
-- `expired_count` of src/uffs_blockinfo.c counts the expired pages.
use esp_uffs.Prelude.{
  ℕ, zero, suc, ◌+◌, ◌-◌, ◌≡◌, refl, sym, ◌∙◌, ap, List, [], ◌∷◌, false, ◌==◌, if◌then◌else◌,
  length, arith, Bool-cases, ◌⊎◌, inl, inr,
}
use esp_uffs.BadBlock.{PendingList}
use esp_uffs.BlockInfo.{
  PageSpare, BlockInfo, ReadTag, flash_have_err, load_spare, load_all, block_info_load_all,
  expire_all, block_info_expire_all_pages, load_page, block_info_load_page, block_info_load,
  block_info_expire, all_pages, expire_page, block_info_expire_page, init_erased,
  block_info_init_erased,
}

unfoldable pub expired_pages : List PageSpare → ℕ
expired_pages [] = 0
expired_pages (spare ∷ rest) =
    let others = expired_pages rest in if spare.expired then suc others else others

-- An entry for blocks of `pages` pages.
pub record IsInfo (pages : ℕ) (p : BlockInfo) : Type 0 where
  pub all_pages : length p.spares ≡ pages
  pub counted : p.expired_count ≡ expired_pages p.spares

load_spare-expired :
    (read_tag : ReadTag) (block page : ℕ) (spare : PageSpare) (pending : PendingList)
    → (load_spare read_tag block page spare pending).1.expired ≡ false
unfolding load_spare
load_spare-expired read_tag block page spare pending =
    elim (Bool-cases (flash_have_err (read_tag block page spare.tag).0)) [
      | inl t ↦ rw t refl
      | inr f ↦ rw f refl
    ]

load_all-expired :
    (read_tag : ReadTag) (block page : ℕ) (xs : List PageSpare) (count : ℕ) (pending : PendingList)
    → let r = load_all read_tag block page xs count pending in
      (length (r.1) ≡ length xs) × (expired_pages (r.1) ≡ 0) × (r.2 ≡ count - expired_pages xs)
unfolding load_all expired_pages
load_all-expired read_tag block page [] count pending = (refl, refl, omega arith)
load_all-expired read_tag block page (spare ∷ rest) count pending =
    elim (Bool-cases spare.expired) [
      | inl t ↦
          let (l, e, c) =
            load_all-expired read_tag block (page + 1) rest (count - 1)
              ((load_spare read_tag block page spare pending).2) in
          rw (t, load_spare-expired read_tag block page spare pending)
            (ap suc l, e, c ∙ omega arith)
      | inr f ↦
          let (l, e, c) = load_all-expired read_tag block (page + 1) rest count pending in
          rw f (ap suc l, e, c)
    ]

pub block_info_load_all-IsInfo :
    (read_tag : ReadTag) (pages : ℕ) (work : BlockInfo) (pending : PendingList)
    → IsInfo pages work
    → let r = block_info_load_all read_tag work pending in
      IsInfo pages (r.1) × (expired_pages (r.1.spares) ≡ 0)
unfolding block_info_load_all
block_info_load_all-IsInfo read_tag pages work pending v =
    let (l, e, c) = load_all-expired read_tag work.block 0 work.spares work.expired_count pending in
    let n = v.counted in
    (record { all_pages = l ∙ v.all_pages; counted = c ∙ omega arith ∙ sym e }, e)

pub expire_all-expired :
    (xs : List PageSpare) (count : ℕ)
    → let r = expire_all xs count in
      (length (r.0) ≡ length xs)
      × (expired_pages (r.0) ≡ length xs)
      × (r.1 + expired_pages xs ≡ count + length xs)
unfolding expire_all expired_pages
expire_all-expired [] count = (refl, refl, refl)
expire_all-expired (spare ∷ rest) count = elim (Bool-cases spare.expired) [
  | inl t ↦ let (l, e, c) = expire_all-expired rest count in rw t (ap suc l, ap suc e, omega arith)
  | inr f ↦
      let (l, e, c) = expire_all-expired rest (count + 1) in rw f (ap suc l, ap suc e, omega arith)
]

block_info_expire_all_pages-IsInfo :
    (pages : ℕ) (p : BlockInfo)
    → IsInfo pages p
    → IsInfo pages (block_info_expire_all_pages p)
      × (expired_pages (block_info_expire_all_pages p).spares ≡ pages)
unfolding block_info_expire_all_pages
block_info_expire_all_pages-IsInfo pages p v =
    let (l, e, c) = expire_all-expired p.spares p.expired_count in
    let n = v.counted in
    let a = v.all_pages in (record { all_pages = l ∙ a; counted = omega arith }, e ∙ a)

expire_page-expired :
    (xs : List PageSpare) (page count : ℕ)
    → let r = expire_page xs page count in
      (length (r.0) ≡ length xs) × (r.1 + expired_pages xs ≡ count + expired_pages (r.0))
unfolding expire_page expired_pages
expire_page-expired [] page count = (refl, refl)
expire_page-expired (spare ∷ rest) zero count = elim (Bool-cases spare.expired) [
  | inl t ↦ rw t (refl, refl)
  | inr f ↦ rw f (refl, omega arith)
]
expire_page-expired (spare ∷ rest) (suc page) count =
    let (l, c) = expire_page-expired rest page count in
    elim (Bool-cases spare.expired) [
      | inl t ↦ rw t (ap suc l, omega arith)
      | inr f ↦ rw f (ap suc l, c)
    ]

block_info_expire_page-IsInfo :
    (pages page : ℕ) (p : BlockInfo) → IsInfo pages p → IsInfo pages (block_info_expire_page p page)
unfolding block_info_expire_page
block_info_expire_page-IsInfo pages page p v =
    let (l, c) = expire_page-expired p.spares page p.expired_count in
    let n = v.counted in record { all_pages = l ∙ v.all_pages; counted = omega arith }

init_erased-expired :
    (xs : List PageSpare)
    → (length (init_erased xs) ≡ length xs) × (expired_pages (init_erased xs) ≡ 0)
unfolding init_erased expired_pages
init_erased-expired [] = (refl, refl)
init_erased-expired (spare ∷ rest) = let (l, e) = init_erased-expired rest in (ap suc l, e)

-- uffs_BlockInfoInitErased keeps the number of pages of an entry and keeps expired_count the
-- number of its expired pages.
pub block_info_init_erased-IsInfo :
    (pages : ℕ) (p : BlockInfo) → IsInfo pages p → IsInfo pages (block_info_init_erased p)
unfolding block_info_init_erased
block_info_init_erased-IsInfo pages p v =
    let (l, e) = init_erased-expired p.spares in
    record { all_pages = l ∙ v.all_pages; counted = sym e }

load_page-expired :
    (read_tag : ReadTag) (block page : ℕ) (xs : List PageSpare) (at count : ℕ)
    (pending : PendingList)
    → let r = load_page read_tag block page xs at count pending in
      (length (r.1) ≡ length xs)
      × (((r.2 ≡ count) × (expired_pages (r.1) ≡ expired_pages xs))
          ⊎ ((r.2 ≡ count - 1) × (expired_pages xs ≡ suc (expired_pages (r.1)))))
unfolding load_page expired_pages
load_page-expired read_tag block page [] at count pending = (refl, inl (refl, refl))
load_page-expired read_tag block page (spare ∷ rest) zero count pending =
    elim (Bool-cases spare.expired) [
      | inl t ↦ elim (Bool-cases (flash_have_err (read_tag block page spare.tag).0)) [
        | inl e ↦ rw (t, e) (refl, inl (refl, refl))
        | inr e ↦ rw (t, e) (refl, inr (refl, refl))
      ]
      | inr f ↦ rw f (refl, inl (refl, refl))
    ]
load_page-expired read_tag block page (spare ∷ rest) (suc at) count pending =
    let (l, c) = load_page-expired read_tag block page rest at count pending in
    elim (Bool-cases spare.expired) [
      | inl t ↦
          rw t
            (ap suc l, (elim c [ inl h ↦ inl (h.0, ap suc h.1) | inr h ↦ inr (h.0, ap suc h.1) ]))
      | inr f ↦ rw f (ap suc l, c)
    ]

block_info_load_page-IsInfo :
    (read_tag : ReadTag) (pages page : ℕ) (work : BlockInfo) (pending : PendingList)
    → IsInfo pages work
    → IsInfo pages ((block_info_load_page read_tag work page pending).1)
unfolding block_info_load_page
block_info_load_page-IsInfo read_tag pages page work pending v =
    let (l, c) =
      load_page-expired read_tag work.block page work.spares page work.expired_count pending in
    let n = v.counted in
    record {
      all_pages = l ∙ v.all_pages;
      counted = elim c [ inl h ↦ h.0 ∙ n ∙ sym (h.1) | inr h ↦ h.0 ∙ omega (arith, h.1) ];
    }

-- uffs_BlockInfoLoad, for every page argument and whatever the flash reports, keeps the number of
-- pages of an entry and keeps expired_count the number of its expired pages; after a load of all
-- pages, failed or not, no page is expired.
pub block_info_load-IsInfo :
    (read_tag : ReadTag) (pages page : ℕ) (work : BlockInfo) (pending : PendingList)
    → IsInfo pages work
    → IsInfo pages ((block_info_load read_tag work page pending).1)
      × (expired_pages ((block_info_load read_tag work all_pages pending).1.spares) ≡ 0)
unfolding block_info_load
block_info_load-IsInfo read_tag pages page work pending v =
    let every = block_info_load_all-IsInfo read_tag pages work pending v in
    (
      elim (Bool-cases (page == all_pages)) [
        | inl t ↦ rw t every.0
        | inr f ↦ rw f (block_info_load_page-IsInfo read_tag pages page work pending v)
      ],
      every.1,
    )

-- uffs_BlockInfoExpire, for every page argument, keeps the number of pages of an entry and keeps
-- expired_count the number of its expired pages; after all pages are expired, that is every page.
pub block_info_expire-IsInfo :
    (pages page : ℕ) (p : BlockInfo)
    → IsInfo pages p
    → IsInfo pages (block_info_expire p page)
      × (expired_pages (block_info_expire p all_pages).spares ≡ pages)
unfolding block_info_expire
block_info_expire-IsInfo pages page p v =
    let every = block_info_expire_all_pages-IsInfo pages p v in
    (
      elim (Bool-cases (page == all_pages)) [
        | inl t ↦ rw t every.0
        | inr f ↦ rw f (block_info_expire_page-IsInfo pages page p v)
      ],
      every.1,
    )
