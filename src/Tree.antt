-- ===== src/Tree.antt =====
-- src/uffs_tree.c: the nodes of the file system's blocks, in hash tables by kind and in lists of
-- erased, suspended and bad blocks. A node is its index in the pool of nodes (FROM_IDX and TO_IDX
-- are the pool's index functions, so one is as good as the other), and NULL is the index EMPTY_NODE,
-- which no node has. A field of a node is a function of the node; a node is read under the arm of its
-- union that it was written under, so that the arms' fields of one name are one function.
pub mod Hash
pub mod Break
pub mod Find
pub mod Lists
mod Examples
use esp_uffs.Prelude.{
  ℕ, zero, suc, ◌+◌, ◌-◌, ◌<◌, bit_and, Bool, true, false, not, ◌&&◌, Option, none, some, ltb, leb,
  ◌==◌, if◌then◌else◌, write,
}

abbrev pub empty_node : ℕ
empty_node = 0xffff

abbrev pub dir_node_hash_mask : ℕ
dir_node_hash_mask = 0x1f

abbrev pub file_node_hash_mask : ℕ
file_node_hash_mask = 0x3f

abbrev pub data_node_hash_mask : ℕ
data_node_hash_mask = 0x1ff

-- A hash table: the first node of each chain, and the links between nodes.
pub record Table : Type 0 where
  pub hash_next : ℕ → ℕ
  pub hash_prev : ℕ → ℕ
  pub entry : ℕ → ℕ

unfoldable pub insert_to_entry : Table → ℕ → ℕ → Table
unfolding write
insert_to_entry t hash node =
    let first = t.entry hash in
    let prev = write t.hash_prev node empty_node in
    record {
      hash_next = write t.hash_next node first;
      hash_prev = if first == empty_node then prev else write prev first node;
      entry = write t.entry hash node;
    }

unfoldable pub break_from_chain : Table → ℕ → ℕ → Table
unfolding write
break_from_chain t hash node =
    let p = t.hash_prev node in
    let next = if p == empty_node then t.hash_next else write t.hash_next p (t.hash_next node) in
    let n = next node in
    record {
      hash_next = next;
      hash_prev = if n == empty_node then t.hash_prev else write t.hash_prev n (t.hash_prev node);
      entry = if t.entry hash == node then write t.entry hash (next node) else t.entry;
    }

-- The walk of a chain, with `none` for one that does not end within the given rounds.
unfoldable pub find_in_chain : ℕ → (ℕ → ℕ) → (ℕ → Bool) → ℕ → Option ℕ
find_in_chain zero next test x = none
find_in_chain (suc fuel) next test x =
    let behind = find_in_chain fuel next test (next x) in
    if x == empty_node then some empty_node else if test x then some x else behind

-- One search after another: the second where the first ends with NULL.
unfoldable pub or_else : Option ℕ → Option ℕ → Option ℕ
or_else none second = none
or_else (some x) second = if x == empty_node then second else some x

-- The chains from `hash` on, `entries` of them.
unfoldable pub find_in_table : ℕ → ℕ → ℕ → Table → (ℕ → Bool) → Option ℕ
unfolding find_in_chain or_else
find_in_table fuel zero hash t test = some empty_node
find_in_table fuel (suc entries) hash t test =
    or_else (find_in_chain fuel t.hash_next test (t.entry hash))
      (find_in_table fuel entries (hash + 1) t test)

pub record Tree : Type 0 where
  pub num_nodes : ℕ
  pub block : ℕ → ℕ
  pub checksum : ℕ → ℕ
  pub parent : ℕ → ℕ
  pub serial : ℕ → ℕ
  pub next : ℕ → ℕ
  pub prev : ℕ → ℕ
  pub need_check : ℕ → ℕ
  pub erased : ℕ
  pub erased_tail : ℕ
  pub erased_count : ℕ
  pub suspend : ℕ
  pub bad : ℕ
  pub bad_count : ℕ
  pub dir_table : Table
  pub file_table : Table
  pub data_table : Table

-- Rounds for a walk: one for each node, and one to see the end.
abbrev pub walk_fuel : Tree → ℕ
walk_fuel tree = suc tree.num_nodes

unfoldable pub tree_find_file_node : Tree → ℕ → Option ℕ
tree_find_file_node tree serial =
    find_in_chain (walk_fuel tree) tree.file_table.hash_next (λ n. tree.serial n == serial)
      (tree.file_table.entry (bit_and serial file_node_hash_mask))

unfoldable pub tree_find_dir_node : Tree → ℕ → Option ℕ
tree_find_dir_node tree serial =
    find_in_chain (walk_fuel tree) tree.dir_table.hash_next (λ n. tree.serial n == serial)
      (tree.dir_table.entry (bit_and serial dir_node_hash_mask))

unfoldable pub tree_find_data_node : Tree → ℕ → ℕ → Option ℕ
tree_find_data_node tree parent serial =
    find_in_chain (walk_fuel tree) tree.data_table.hash_next
      (λ n. (tree.parent n == parent) && (tree.serial n == serial))
      (tree.data_table.entry (bit_and (parent + serial) data_node_hash_mask))

unfoldable pub tree_find_file_node_with_parent : Tree → ℕ → Option ℕ
tree_find_file_node_with_parent tree parent =
    find_in_table (walk_fuel tree) (file_node_hash_mask + 1) 0 tree.file_table
      (λ n. tree.parent n == parent)

unfoldable pub tree_find_dir_node_with_parent : Tree → ℕ → Option ℕ
tree_find_dir_node_with_parent tree parent =
    find_in_table (walk_fuel tree) (dir_node_hash_mask + 1) 0 tree.dir_table
      (λ n. tree.parent n == parent)

-- `same_name` is uffs_TreeCompareFileName, which reads the name from the flash.
unfoldable pub tree_find_file_node_by_name : Tree → (ℕ → Bool) → ℕ → ℕ → Option ℕ
tree_find_file_node_by_name tree same_name sum parent =
    find_in_table (walk_fuel tree) (file_node_hash_mask + 1) 0 tree.file_table
      (λ n. (tree.checksum n == sum) && (tree.parent n == parent) && same_name n)

unfoldable pub tree_find_dir_node_by_name : Tree → (ℕ → Bool) → ℕ → ℕ → Option ℕ
tree_find_dir_node_by_name tree same_name sum parent =
    find_in_table (walk_fuel tree) (dir_node_hash_mask + 1) 0 tree.dir_table
      (λ n. (tree.checksum n == sum) && (tree.parent n == parent) && same_name n)

unfoldable pub tree_find_dir_node_by_block : Tree → ℕ → Option ℕ
tree_find_dir_node_by_block tree block =
    find_in_table (walk_fuel tree) (dir_node_hash_mask + 1) 0 tree.dir_table
      (λ n. tree.block n == block)

unfoldable pub tree_find_file_node_by_block : Tree → ℕ → Option ℕ
tree_find_file_node_by_block tree block =
    find_in_table (walk_fuel tree) (file_node_hash_mask + 1) 0 tree.file_table
      (λ n. tree.block n == block)

unfoldable pub tree_find_data_node_by_block : Tree → ℕ → Option ℕ
tree_find_data_node_by_block tree block =
    find_in_table (walk_fuel tree) (data_node_hash_mask + 1) 0 tree.data_table
      (λ n. tree.block n == block)

unfoldable pub tree_find_erased_node_by_block : Tree → ℕ → Option ℕ
tree_find_erased_node_by_block tree block =
    find_in_chain (walk_fuel tree) tree.next (λ n. tree.block n == block) tree.erased

unfoldable pub tree_find_bad_node_by_block : Tree → ℕ → Option ℕ
tree_find_bad_node_by_block tree block =
    find_in_chain (walk_fuel tree) tree.next (λ n. tree.block n == block) tree.bad

unfoldable pub tree_find_suspend_node : Tree → ℕ → Option ℕ
tree_find_suspend_node tree serial =
    find_in_chain (walk_fuel tree) tree.next (λ n. tree.serial n == serial) tree.suspend

-- `*region` after a hit in one region keeps that region's bit alone.
unfoldable pub found_or : Option ℕ → ℕ → Option (ℕ × ℕ) → Option (ℕ × ℕ)
found_or none region later = none
found_or (some x) region later = if x == empty_node then later else some (x, region)

unfoldable pub in_region : ℕ → ℕ → Option ℕ → Option (ℕ × ℕ) → Option (ℕ × ℕ)
unfolding found_or
in_region region bit hit later =
    if bit_and region bit == 0 then later else found_or hit (bit_and region bit) later

-- The node, and the region that `*region` is left with.
unfoldable pub tree_find_node_by_block : Tree → ℕ → ℕ → Option (ℕ × ℕ)
unfolding in_region
tree_find_node_by_block tree block region =
    in_region region 4 (tree_find_data_node_by_block tree block) (
      in_region region 2 (tree_find_file_node_by_block tree block) (
        in_region region 1 (tree_find_dir_node_by_block tree block) (
          in_region region 16 (tree_find_erased_node_by_block tree block) (
            in_region region 8 (tree_find_bad_node_by_block tree block)
              (some (empty_node, region))))))

-- UFFS_TYPE_DIR, UFFS_TYPE_FILE, UFFS_TYPE_DATA, and any other value.
pub data NodeType : Type 0 where
  dir_type : NodeType
  file_type : NodeType
  data_type : NodeType
  other_type : NodeType

unfoldable pub insert_to_file_entry : Tree → ℕ → Tree
insert_to_file_entry tree node = record tree {
  file_table =
      insert_to_entry tree.file_table (bit_and (tree.serial node) file_node_hash_mask) node;
}

unfoldable pub insert_to_dir_entry : Tree → ℕ → Tree
insert_to_dir_entry tree node = record tree {
  dir_table = insert_to_entry tree.dir_table (bit_and (tree.serial node) dir_node_hash_mask) node;
}

unfoldable pub insert_to_data_entry : Tree → ℕ → Tree
insert_to_data_entry tree node = record tree {
  data_table =
      insert_to_entry tree.data_table
        (bit_and (tree.parent node + tree.serial node) data_node_hash_mask) node;
}

unfoldable pub break_from_entry : Tree → NodeType → ℕ → Tree
break_from_entry tree dir_type node = record tree {
  dir_table = break_from_chain tree.dir_table (bit_and (tree.serial node) dir_node_hash_mask) node;
}
break_from_entry tree file_type node = record tree {
  file_table =
      break_from_chain tree.file_table (bit_and (tree.serial node) file_node_hash_mask) node;
}
break_from_entry tree data_type node = record tree {
  data_table =
      break_from_chain tree.data_table
        (bit_and (tree.parent node + tree.serial node) data_node_hash_mask) node;
}
break_from_entry tree other_type node = tree

unfoldable pub insert_node_to_tree : Tree → NodeType → ℕ → Tree
insert_node_to_tree tree dir_type node = insert_to_dir_entry tree node
insert_node_to_tree tree file_type node = insert_to_file_entry tree node
insert_node_to_tree tree data_type node = insert_to_data_entry tree node
insert_node_to_tree tree other_type node = tree

-- A serial is free when no directory, file or suspended node has it.
unfoldable pub serial_holder : Tree → ℕ → Option ℕ
serial_holder tree i =
    or_else (tree_find_dir_node tree i)
      (or_else (tree_find_file_node tree i) (tree_find_suspend_node tree i))

unfoldable pub first_free : Option ℕ → ℕ → Option ℕ → Option ℕ
first_free none i later = none
first_free (some x) i later = if x == empty_node then some i else later

unfoldable pub free_serial_loop : ℕ → Tree → ℕ → Option ℕ
unfolding first_free
free_serial_loop zero tree i = some 0xffff
free_serial_loop (suc rounds) tree i =
    first_free (serial_holder tree i) i (free_serial_loop rounds tree (i + 1))

-- The serials from ROOT_DIR_SERIAL + 1 up to MAX_UFFS_FSN - 1 are tried in turn.
unfoldable pub find_free_fsn_serial : Tree → Option ℕ
unfolding free_serial_loop
find_free_fsn_serial tree = free_serial_loop 0x3fe tree 1

-- The erased, suspended and bad lists.
unfoldable pub tree_get_erased_node_no_check : Tree → ℕ × Tree
unfolding write
tree_get_erased_node_no_check tree =
    let node = tree.erased in
    let rest = tree.next node in
    if node == empty_node then (empty_node, tree) else (
      node,
      record tree {
        prev = write tree.prev node empty_node;
        erased = rest;
        erased_tail = if rest == empty_node then empty_node else tree.erased_tail;
        erased_count = tree.erased_count - 1;
      },
    )

unfoldable pub insert_to_erased_list_head : Tree → ℕ → Tree
unfolding write
insert_to_erased_list_head tree node =
    let next = write tree.next node tree.erased in
    let prev = write tree.prev node empty_node in
    record tree {
      next = next;
      prev = if tree.erased == empty_node then prev else write prev tree.erased node;
      erased = node;
      erased_tail = if next node == tree.erased_tail then node else tree.erased_tail;
      erased_count = tree.erased_count + 1;
    }

-- `keep_check` stands for a negative `need_check`.
unfoldable pub tree_insert_to_erased_list_tail_ex : Tree → ℕ → Bool → ℕ → Tree
unfolding write
tree_insert_to_erased_list_tail_ex tree node keep_check need_check =
    let next = write tree.next node empty_node in
    record tree {
      need_check = if keep_check then tree.need_check else write tree.need_check node need_check;
      next = if tree.erased_tail == empty_node then next else write next tree.erased_tail node;
      prev = write tree.prev node tree.erased_tail;
      erased_tail = node;
      erased = if tree.erased == empty_node then node else tree.erased;
      erased_count = tree.erased_count + 1;
    }

unfoldable pub tree_insert_to_erased_list_tail : Tree → ℕ → Tree
tree_insert_to_erased_list_tail tree node = tree_insert_to_erased_list_tail_ex tree node false 0

unfoldable pub tree_insert_to_bad_block_list : Tree → ℕ → Tree
unfolding write
tree_insert_to_bad_block_list tree node =
    let prev = write tree.prev node empty_node in
    record tree {
      prev = if tree.bad == empty_node then prev else write prev tree.bad node;
      next = write tree.next node tree.bad;
      bad = node;
      bad_count = tree.bad_count + 1;
    }

unfoldable pub tree_suspend_add : Tree → ℕ → Tree
unfolding write
tree_suspend_add tree node =
    let prev = write tree.prev node empty_node in
    record tree {
      next = write tree.next node tree.suspend;
      prev = if tree.suspend == empty_node then prev else write prev tree.suspend node;
      suspend = node;
    }

unfoldable pub tree_remove_suspend_node : Tree → ℕ → Tree
unfolding write
tree_remove_suspend_node tree node =
    let p = tree.prev node in
    let next = if p == empty_node then tree.next else write tree.next p (tree.next node) in
    let n = next node in
    record tree {
      next = next;
      prev = if n == empty_node then tree.prev else write tree.prev n (tree.prev node);
      suspend = if node == tree.suspend then empty_node else tree.suspend;
    }
