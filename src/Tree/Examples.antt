-- ===== src/Tree/Examples.antt =====
-- The tables and lists of src/uffs_tree.c on concrete nodes.
use esp_uffs.Prelude.{◌≡◌, refl, [], ◌∷◌, some, false, arith, ◌==◌, if◌then◌else◌, ◌%◌, ◌+◌}
use esp_uffs.Tree.{
  Table, Tree, empty_node, insert_to_entry, break_from_chain, tree_get_erased_node_no_check,
  insert_to_erased_list_head, tree_insert_to_erased_list_tail_ex, tree_insert_to_erased_list_tail,
  tree_find_suspend_node, tree_suspend_add, tree_remove_suspend_node, find_in_chain,
  tree_find_file_node, find_free_fsn_serial,
}
use esp_uffs.Tree.Find.{Walk}
use esp_uffs.Tree.Break.{break_from_chain-IsTable}
use esp_uffs.Tree.Hash.{IsTable, insert_to_entry-IsTable}
use esp_uffs.Tree.Lists.{
  IsErased, tree_insert_to_erased_list_tail_ex-IsErased, insert_to_erased_list_head_loses,
  tree_find_suspend_node-tree_remove_suspend_node,
}

abbrev empty_table : Table
empty_table = record { hash_next = λ n. 0; hash_prev = λ n. 0; entry = λ h. empty_node }

-- Node 3 alone is erased, node 5 alone is suspended.
abbrev small : Tree
small = record {
  num_nodes = 8;
  block = λ n. n;
  checksum = λ n. 0;
  parent = λ n. 0;
  serial = λ n. n + 1;
  next = λ n. empty_node;
  prev = λ n. empty_node;
  need_check = λ n. 0;
  erased = 3;
  erased_tail = 3;
  erased_count = 1;
  suspend = 5;
  bad = empty_node;
  bad_count = 0;
  dir_table = empty_table;
  file_table = empty_table;
  data_table = empty_table;
}

small-IsErased : IsErased small (3 ∷ [])
small-IsErased = record {
  walk = (refl, omega arith, refl);
  tail = refl;
  count = refl;
  different = (tt, tt);
}

first_free_serial : find_free_fsn_serial small ≡ some 1
unfolding find_free_fsn_serial esp_uffs.Tree.free_serial_loop esp_uffs.Tree.first_free
    esp_uffs.Tree.serial_holder esp_uffs.Tree.tree_find_dir_node tree_find_file_node
    tree_find_suspend_node find_in_chain esp_uffs.Tree.or_else
first_free_serial = refl

insert_to_entry-IsTable_example :
    IsTable
      (insert_to_entry empty_table (7 % 4) 7)
      (λ n. n % 4)
      (λ h. if h == 7 % 4 then 7 ∷ [] else [])
insert_to_entry-IsTable_example =
    insert_to_entry-IsTable empty_table (λ n. n % 4) (λ h. []) 7
      (record { links = λ h. refl; homes = λ h. tt; different = λ h. tt }) (omega arith) tt

abbrev two_erased : Tree
two_erased = tree_insert_to_erased_list_tail_ex small 6 false 1

two_erased-IsErased : IsErased two_erased (3 ∷ 6 ∷ [])
two_erased-IsErased =
    tree_insert_to_erased_list_tail_ex-IsErased small 6 (3 ∷ []) false 1 small-IsErased
      (omega arith) (omega arith, tt)

insert_to_erased_list_head_loses_example :
    Walk
      (tree_insert_to_erased_list_tail (insert_to_erased_list_head small 2) 6).next
      (tree_insert_to_erased_list_tail (insert_to_erased_list_head small 2) 6).erased
      (2 ∷ 6 ∷ [])
    × ((tree_insert_to_erased_list_tail (insert_to_erased_list_head small 2) 6).erased_count ≡ 3)
insert_to_erased_list_head_loses_example =
    insert_to_erased_list_head_loses small 3 2 6 small-IsErased (omega arith) (omega arith)
      (omega arith) (omega arith) (omega arith)

tree_find_suspend_node-tree_remove_suspend_node_example :
    tree_find_suspend_node (tree_remove_suspend_node (tree_suspend_add small 2) 2) 6
    ≡ some empty_node
unfolding tree_suspend_add
tree_find_suspend_node-tree_remove_suspend_node_example =
    tree_find_suspend_node-tree_remove_suspend_node (tree_suspend_add small 2) 2 6 refl

one_node-IsTable :
    IsTable
      (insert_to_entry empty_table (7 % 4) 7)
      (λ n. n % 4)
      (λ h. if h == 7 % 4 then 7 ∷ [] else [])
one_node-IsTable =
    insert_to_entry-IsTable empty_table (λ n. n % 4) (λ h. []) 7
      (record { links = λ h. refl; homes = λ h. tt; different = λ h. tt }) (omega arith) tt

break_from_chain-IsTable_example :
    IsTable
      (break_from_chain (insert_to_entry empty_table (7 % 4) 7) (7 % 4) 7)
      (λ n. n % 4)
      (λ h. if h == 7 % 4 then [] else if h == 7 % 4 then 7 ∷ [] else [])
break_from_chain-IsTable_example =
    break_from_chain-IsTable (insert_to_entry empty_table (7 % 4) 7) (λ n. n % 4)
      (λ h. if h == 7 % 4 then 7 ∷ [] else []) 7 [] [] one_node-IsTable refl
