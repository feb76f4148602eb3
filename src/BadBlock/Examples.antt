-- ===== src/BadBlock/Examples.antt =====
-- The pending list of src/uffs_badblock.c on concrete blocks.
use esp_uffs.Prelude.{◌≡◌, [], ◌∷◌, arith, length, leb, ◌==◌, if◌then◌else◌}
use esp_uffs.BadBlock.{PendingList, bad_block_add, bad_block_pending_node_get, max_pending_blocks}
use esp_uffs.BadBlock.Lookup.{IsPending, added, bad_block_add-added}

abbrev two : PendingList
two = record {
  entries = record { block = 7; mark = 0 } ∷ record { block = 9; mark = 3 } ∷ [];
  block_in_recovery = 4;
}

two-IsPending : IsPending two
two-IsPending = record { distinct = ((omega arith, tt), (tt, tt)); fits = omega arith }

bad_block_add-added_example :
    IsPending (bad_block_add two 7 1)
    × (bad_block_pending_node_get (bad_block_add two 7 1) 9 ≡ (
        if 9 == 7
        then (if two.block_in_recovery == 7
            then bad_block_pending_node_get two 7
            else added
                (bad_block_pending_node_get two 7)
                (leb max_pending_blocks (length two.entries))
                7
                1)
        else bad_block_pending_node_get two 9))
bad_block_add-added_example = bad_block_add-added two 7 1 9 two-IsPending (omega arith)
