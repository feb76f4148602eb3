-- ===== src/Public/Best.antt =====
-- uffs_FindBestPageInBlock of src/uffs_public.c on a block whose tags are all read.
use esp_uffs.Prelude.{ℕ, ◌<◌, ◌≤◌, ◌≡◌, refl, sym, ◌∙◌, true, false, arith, inl, inr, ap}
use esp_uffs.BlockInfo.{ReadTag}
use esp_uffs.BlockInfo.Expired.{IsInfo}
use esp_uffs.Public.{Loaded, get_tag, tag_is_good, invalid_page, find_best_page_in_block}
use esp_uffs.Public.Pages.{find_best_page_in_block-BetterPage}
use esp_uffs.Public.Again.{IsRead, load-again, find_best_page_in_block-again}

-- In an entry that is all read, the best page for a page with a good tag is a page with a good tag and
-- the same page id.
pub best_page :
    (read_tag : ReadTag) (pages i : ℕ) (s : Loaded)
    → IsInfo pages s.bc
    → IsRead pages s.bc
    → i < pages
    → pages ≤ invalid_page
    → tag_is_good (get_tag s.bc i) ≡ true
    → let p = (find_best_page_in_block read_tag pages i s).0 in
      (p < pages)
      × (tag_is_good (get_tag s.bc p) ≡ true)
      × ((get_tag s.bc p).page_id ≡ (get_tag s.bc i).page_id)
best_page read_tag pages i s v w h small good =
    let p = (find_best_page_in_block read_tag pages i s).0 in
    let same = find_best_page_in_block-again read_tag pages i s w h (omega arith) in
    let here = load-again read_tag s i (omega arith) (w i h) in
    let old = ap (λ x. (get_tag x.bc i).page_id) here in
    let best = find_best_page_in_block-BetterPage read_tag pages i s v h (omega arith) in
    elim (best.1) [
      | inl (bad, e) ↦
          let no : true ≡ false =
            sym good ∙ sym (ap (λ x. tag_is_good (get_tag x.bc i)) here) ∙ bad in
          absurd (ground (arith, no))
      | inr (g, inl e) ↦ rw e (h, good, refl)
      | inr (g, inr (a, b, c, d, e, f)) ↦ (
        b,
        sym (ap (λ x. tag_is_good (get_tag x.bc p)) same) ∙ c,
        sym (ap (λ x. (get_tag x.bc p).page_id) same) ∙ d ∙ old,
      )
    ]
