-- ===== src/Public/Erased.antt =====
-- src/uffs_public.c: tests for erased pages and used blocks, the search for the first free page, the
-- count of the free pages, and the length of the data of a block.
use esp_uffs.Prelude.{ℕ, zero, suc, ◌+◌, ◌-◌, Bool, not, ◌&&◌, ◌==◌, if◌then◌else◌}
use esp_uffs.BlockInfo.{Tags, ReadTag, block_info_load}
use esp_uffs.TagStore.{tag_word0}
use esp_uffs.Public.{Loaded, load, get_tag, tag_is_good, invalid_page, get_first_block_time_stamp}

-- TAG_IS_DIRTY: the first word of the stored tag is not all ones.
unfoldable pub tag_is_dirty : Tags → Bool
tag_is_dirty tag = not (tag_word0 tag == 0xffffffff)

unfoldable pub is_erased_tag : Tags → Bool
is_erased_tag tag = (tag.seal_byte == 0xff) && not (tag_is_dirty tag) && not (tag.valid == 0)

unfoldable pub is_page_erased : ReadTag → ℕ → Loaded → Bool × Loaded
is_page_erased read_tag page s =
    let (ok, bc, pending) = block_info_load read_tag s.bc page s.pending in
    (ok && is_erased_tag (get_tag bc page), record { bc = bc; pending = pending })

-- The loop from page `page` on; `rounds` pages are left.
unfoldable pub free_loop : ReadTag → ℕ → ℕ → Loaded → ℕ × Loaded
free_loop read_tag zero page s = (invalid_page, s)
free_loop read_tag (suc rounds) page s =
    let r = is_page_erased read_tag page (load read_tag s page) in
    let later = free_loop read_tag rounds (page + 1) (r.1) in if r.0 then (page, r.1) else later

unfoldable pub find_first_free_page : ReadTag → ℕ → ℕ → Loaded → ℕ × Loaded
unfolding free_loop
find_first_free_page read_tag pages_per_block from s =
    free_loop read_tag (pages_per_block - from) from s

-- The loop from the page below `left` down.
unfoldable pub count_loop : ReadTag → ℕ → Loaded → ℕ × Loaded
count_loop read_tag zero s = (0, s)
count_loop read_tag (suc left) s =
    let r = is_page_erased read_tag left (load read_tag s left) in
    let later = count_loop read_tag left (r.1) in
    if r.0
    then (later.0 + 1, later.1)
    else if tag_is_good (get_tag (r.1.bc) left)
    then (0, r.1)
    else later

unfoldable pub get_free_pages_count : ReadTag → ℕ → Loaded → ℕ × Loaded
unfolding count_loop
get_free_pages_count read_tag pages_per_block s = count_loop read_tag pages_per_block s

unfoldable pub is_this_block_used : ReadTag → Loaded → Bool × Loaded
is_this_block_used read_tag s =
    let next = load read_tag s 0 in (tag_is_dirty (get_tag next.bc 0), next)

unfoldable pub get_block_time_stamp : ReadTag → Loaded → ℕ × Loaded
get_block_time_stamp read_tag s =
    let (used, next) = is_this_block_used read_tag s in
    let again = load read_tag next 0 in
    if used then ((get_tag again.bc 0).block_ts, again) else (get_first_block_time_stamp, next)
