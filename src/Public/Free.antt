-- ===== src/Public/Free.antt =====
-- What the search for a free page and the count of the free pages in src/uffs_public.c find.
use esp_uffs.Prelude.{ℕ, zero, suc, ◌+◌, ◌<◌, ◌≤◌, ◌≡◌, true, false, ◌⊎◌, if◌then◌else◌, Bool}
use esp_uffs.BlockInfo.{BlockInfo}
use esp_uffs.BlockInfo.Expired.{IsInfo}
use esp_uffs.Public.{Loaded, invalid_page, get_tag, tag_is_good}
use esp_uffs.Public.Spares.{spare_at, is_free_spare}

abbrev pub is_free : BlockInfo → ℕ → Bool
is_free bc page = is_free_spare (spare_at bc page)

-- A search from `from` on over `rounds` pages.
abbrev pub FirstFree : ℕ → ℕ → ℕ → ℕ × Loaded → Type 0
FirstFree pages rounds from r =
    IsInfo pages (r.1.bc)
    × (((r.0 ≡ invalid_page)
          × ((j : ℕ) → from ≤ j → j < from + rounds → is_free (r.1.bc) j ≡ false))
        ⊎ ((from ≤ r.0)
            × (r.0 < from + rounds)
            × (is_free (r.1.bc) (r.0) ≡ true)
            × ((j : ℕ) → from ≤ j → j < r.0 → is_free (r.1.bc) j ≡ false)))

-- The number of free pages among the `n` pages from `low` on.
unfoldable pub free_among : BlockInfo → ℕ → ℕ → ℕ
free_among bc low zero = 0
free_among bc low (suc n) = free_among bc low n + (if is_free bc (low + n) then 1 else 0)

-- The free pages from some page `low` on are counted, where `low` is page 0 or has a good tag.
abbrev pub CountsFree : ℕ → ℕ → ℕ × Loaded → Type 0
CountsFree pages left r =
    IsInfo pages (r.1.bc)
    × (r.0 ≤ left)
    × ((low : ℕ) × (n : ℕ) × (low + n ≡ left)
        × (r.0 ≡ free_among (r.1.bc) low n)
        × ((low ≡ 0) ⊎ (tag_is_good (get_tag (r.1.bc) low) ≡ true)))
