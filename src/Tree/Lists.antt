-- ===== src/Tree/Lists.antt =====
-- The lists of erased and of suspended blocks in src/uffs_tree.c.
use esp_uffs.Prelude.{
  ℕ, ◌<◌, ◌≡◌, ◌≢◌, refl, sym, ◌∙◌, ap, List, [], ◌∷◌, ◌++◌, Bool, true, false, some, ◌==◌,
  if◌then◌else◌, length, arith, write, write_self, write_ne, length-append, subst, Bool-cases, inl,
  inr,
}
use esp_uffs.Tree.{
  Tree, empty_node, find_in_chain, tree_get_erased_node_no_check, insert_to_erased_list_head,
  tree_insert_to_erased_list_tail_ex, tree_insert_to_erased_list_tail, tree_suspend_add,
  tree_remove_suspend_node, tree_find_suspend_node, walk_fuel,
}
use esp_uffs.Tree.Find.{
  Walk, Missing, Different, first_match, find_in_chain-first_match, Walk-write, Walk-append,
}

abbrev pub last_of : List ℕ → ℕ
last_of [] = empty_node
last_of (n ∷ []) = n
last_of (n ∷ m ∷ xs) = last_of (m ∷ xs)

-- The erased list holds `xs`, in order.
pub record IsErased (tree : Tree) (xs : List ℕ) : Type 0 where
  pub walk : Walk tree.next tree.erased xs
  pub tail : tree.erased_tail ≡ last_of xs
  pub count : tree.erased_count ≡ length xs
  pub different : Different xs

tail-rest :
    (tree : Tree) (x : ℕ) (xs : List ℕ)
    → IsErased tree (x ∷ xs)
    → (if tree.next tree.erased == empty_node then empty_node else tree.erased_tail) ≡ last_of xs
tail-rest tree x [] v =
    let at : tree.next tree.erased ≡ empty_node = ap tree.next v.walk.0 ∙ v.walk.2 in ground arith
tail-rest tree x (y ∷ xs) v =
    let at : tree.next tree.erased ≡ y = ap tree.next v.walk.0 ∙ v.walk.2.0 in
    let real = v.walk.2.1 in
    let t = v.tail in
    let more : (tree.next tree.erased == empty_node) ≡ false = ground arith in rw more t

last_of-ne : (x y : ℕ) (xs : List ℕ) → Missing x (y ∷ xs) → last_of (y ∷ xs) ≢ x
last_of-ne x y [] h = h.0
last_of-ne x y (z ∷ xs) h = last_of-ne x z xs h.1

last_of-real :
    (next : ℕ → ℕ) (e x : ℕ) (xs : List ℕ) → Walk next e (x ∷ xs) → last_of (x ∷ xs) ≢ empty_node
last_of-real next e x [] w = w.1
last_of-real next e x (y ∷ xs) w = last_of-real next (next x) y xs w.2

snoc : (x : ℕ) (xs : List ℕ) → (init : List ℕ) × (x ∷ xs ≡ init ++ last_of (x ∷ xs) ∷ [])
snoc x [] = ([], refl)
snoc x (y ∷ xs) = let (init, e) = snoc y xs in (x ∷ init, ap (◌∷◌ x) e)

last_of-append : (xs : List ℕ) (node : ℕ) → last_of (xs ++ node ∷ []) ≡ node
last_of-append [] node = refl
last_of-append (x ∷ []) node = refl
last_of-append (x ∷ y ∷ xs) node = last_of-append (y ∷ xs) node

Missing-append : (xs : List ℕ) (a node : ℕ) → Missing a xs → node ≢ a → Missing a (xs ++ node ∷ [])
Missing-append [] a node h ne = (ne, tt)
Missing-append (x ∷ xs) a node h ne = (h.0, Missing-append xs a node h.1 ne)

Different-append :
    (xs : List ℕ) (node : ℕ) → Different xs → Missing node xs → Different (xs ++ node ∷ [])
Different-append [] node d h = (tt, tt)
Different-append (x ∷ xs) node d h =
    (Missing-append xs x node d.0 (λ e. h.0 (sym e)), Different-append xs node d.1 h.1)

append-append :
    (init : List ℕ) (last node : ℕ) → (init ++ last ∷ []) ++ node ∷ [] ≡ init ++ last ∷ node ∷ []
append-append [] last node = refl
append-append (x ∷ init) last node = ap (◌∷◌ x) (append-append init last node)

-- uffs_TreeGetErasedNodeNoCheck takes the first node of a non-empty erased list, and keeps the
-- head, the tail and the counter right.
pub tree_get_erased_node_no_check-IsErased :
    (tree : Tree) (x : ℕ) (xs : List ℕ)
    → IsErased tree (x ∷ xs)
    → ((tree_get_erased_node_no_check tree).0 ≡ x)
      × IsErased ((tree_get_erased_node_no_check tree).1) xs
unfolding tree_get_erased_node_no_check
tree_get_erased_node_no_check-IsErased tree x xs v =
    let (here, real, more) = v.walk in
    let some_node : (tree.erased == empty_node) ≡ false = ground arith in
    rw some_node (
      here,
      record {
        walk = subst (λ t. Walk tree.next (tree.next t) xs) (sym here) more;
        tail = tail-rest tree x xs v;
        count = let c = v.count in omega arith;
        different = v.different.1;
      },
    )

head-tail :
    (tree : Tree) (node : ℕ) (xs : List ℕ)
    → IsErased tree xs
    → length xs ≢ 1
    → (if write tree.next node tree.erased node == tree.erased_tail then node else tree.erased_tail)
      ≡ last_of (node ∷ xs)
head-tail tree node [] v ne =
    let at = write_self tree.next node tree.erased in
    let e = v.walk in
    let t = v.tail in
    let same : (write tree.next node tree.erased node == tree.erased_tail) ≡ true = ground arith in
    rw same refl
head-tail tree node (x ∷ []) v ne = absurd (ne refl)
head-tail tree node (x ∷ y ∷ xs) v ne =
    let at = write_self tree.next node tree.erased in
    let e = v.walk.0 in
    let t = v.tail in
    let other = last_of-ne x y xs v.different.0 in
    let differ : (write tree.next node tree.erased node == tree.erased_tail) ≡ false =
      ground arith in
    rw differ t

-- uffs_InsertToErasedListHead puts a new node before an erased list that does not have exactly one
-- node, and keeps the head, the tail and the counter right.
pub insert_to_erased_list_head-IsErased :
    (tree : Tree) (node : ℕ) (xs : List ℕ)
    → IsErased tree xs
    → node ≢ empty_node
    → Missing node xs
    → length xs ≢ 1
    → IsErased (insert_to_erased_list_head tree node) (node ∷ xs)
unfolding insert_to_erased_list_head
insert_to_erased_list_head-IsErased tree node xs v real out ne = record {
  walk = (
    refl,
    real,
    subst (λ t. Walk (write tree.next node tree.erased) t xs)
        (sym (write_self tree.next node tree.erased))
        (Walk-write tree.next tree.erased node tree.erased xs v.walk out),
  );
  tail = head-tail tree node xs v ne;
  count = let c = v.count in omega arith;
  different = (out, v.different);
}

-- uffs_TreeInsertToErasedListTailEx appends a node that is not in the erased list to it, and keeps
-- the head, the tail and the counter right.
pub tree_insert_to_erased_list_tail_ex-IsErased :
    (tree : Tree) (node : ℕ) (xs : List ℕ) (keep : Bool) (need_check : ℕ)
    → IsErased tree xs
    → node ≢ empty_node
    → Missing node xs
    → IsErased (tree_insert_to_erased_list_tail_ex tree node keep need_check) (xs ++ node ∷ [])
unfolding tree_insert_to_erased_list_tail_ex
tree_insert_to_erased_list_tail_ex-IsErased tree node [] keep need_check v real out =
    let e = v.walk in
    let t = v.tail in
    let no_tail : (tree.erased_tail == empty_node) ≡ true = ground arith in
    let no_head : (tree.erased == empty_node) ≡ true = ground arith in
    rw (no_tail, no_head)
      (record {
        walk = (refl, real, write_self tree.next node empty_node);
        tail = refl;
        count = let c = v.count in omega arith;
        different = (tt, tt);
      })
tree_insert_to_erased_list_tail_ex-IsErased tree node (x ∷ xs) keep need_check v real out =
    let last = last_of (x ∷ xs) in
    let (here, real_x, more) = v.walk in
    let t = v.tail in
    let real_last = last_of-real tree.next tree.erased x xs v.walk in
    let some_tail : (tree.erased_tail == empty_node) ≡ false = ground arith in
    let some_head : (tree.erased == empty_node) ≡ false = ground arith in
    let (init, e) = snoc x xs in
    let walk =
      Walk-append tree.next tree.erased last node init (subst (Walk tree.next tree.erased) e v.walk)
        (subst (Missing node) e out) (subst Different e v.different) real in
    let joined : init ++ last ∷ node ∷ [] ≡ x ∷ (xs ++ node ∷ []) =
      sym (append-append init last node) ∙ ap (λ ys. ys ++ node ∷ []) (sym e) in
    rw (some_tail, some_head)
      (record {
        walk =
            subst
              (λ l.
                Walk (write (write tree.next node empty_node) l node) tree.erased
                  (x ∷ (xs ++ node ∷ [])))
              (sym t)
              (subst (Walk (write (write tree.next node empty_node) last node) tree.erased) joined
                walk);
        tail = sym (last_of-append (x ∷ xs) node);
        count = let c = v.count in omega (arith, length-append (x ∷ xs) (node ∷ []));
        different = Different-append (x ∷ xs) node v.different out;
      })

-- After uffs_InsertToErasedListHead on an erased list of one node, the next insertion at the tail
-- drops that node: two nodes are left in the list while the counter says three.
pub insert_to_erased_list_head_loses :
    (tree : Tree) (x node m : ℕ)
    → IsErased tree (x ∷ [])
    → node ≢ empty_node
    → m ≢ empty_node
    → node ≢ x
    → m ≢ x
    → m ≢ node
    → let after = tree_insert_to_erased_list_tail (insert_to_erased_list_head tree node) m in
      Walk after.next after.erased (node ∷ m ∷ []) × (after.erased_count ≡ 3)
unfolding insert_to_erased_list_head tree_insert_to_erased_list_tail_ex
    tree_insert_to_erased_list_tail
insert_to_erased_list_head_loses tree x node m v real real_m nx mx mn =
    let head = v.walk.0 in
    let t = v.tail in
    let at = write_self tree.next node tree.erased in
    let moved : (write tree.next node tree.erased node == tree.erased_tail) ≡ true = ground arith in
    let some_node : (node == empty_node) ≡ false = ground arith in
    let next = write (write tree.next node tree.erased) m empty_node in
    let end : write next node m m ≡ empty_node =
      write_ne next node m m mn ∙ write_self (write tree.next node tree.erased) m empty_node in
    rw (moved, some_node)
      ((refl, real, (write_self next node m, real_m, end)), (let c = v.count in omega arith))

-- After uffs_TreeSuspendAdd of a new node to a suspend list with fewer nodes than there are,
-- uffs_TreeFindSuspendNode finds the node under its serial and everything else as before.
pub tree_find_suspend_node-tree_suspend_add :
    (tree : Tree) (node serial : ℕ) (xs : List ℕ)
    → Walk tree.next tree.suspend xs
    → length xs < tree.num_nodes
    → node ≢ empty_node
    → Missing node xs
    → tree_find_suspend_node (tree_suspend_add tree node) serial
      ≡ (if tree.serial node == serial then some node else tree_find_suspend_node tree serial)
unfolding tree_find_suspend_node tree_suspend_add first_match
tree_find_suspend_node-tree_suspend_add tree node serial xs w h real out =
    let next = write tree.next node tree.suspend in
    let after : Walk next node (node ∷ xs) = (
      refl,
      real,
      subst (λ t. Walk next t xs) (sym (write_self tree.next node tree.suspend))
          (Walk-write tree.next tree.suspend node tree.suspend xs w out),
    ) in
    let new =
      find_in_chain-first_match (walk_fuel tree) next (λ n. tree.serial n == serial) node
        (node ∷ xs) (omega arith) after in
    let old =
      find_in_chain-first_match (walk_fuel tree) tree.next (λ n. tree.serial n == serial)
        tree.suspend xs (omega arith) w in
    elim (Bool-cases (tree.serial node == serial)) [
      | inl same ↦ new ∙ rw same refl
      | inr differ ↦ new ∙ rw differ (sym old)
    ]

-- After uffs_TreeRemoveSuspendNode of the first suspended node, uffs_TreeFindSuspendNode finds no
-- node at all, whatever else was suspended.
pub tree_find_suspend_node-tree_remove_suspend_node :
    (tree : Tree) (node serial : ℕ)
    → tree.suspend ≡ node
    → tree_find_suspend_node (tree_remove_suspend_node tree node) serial ≡ some empty_node
unfolding tree_find_suspend_node tree_remove_suspend_node find_in_chain
tree_find_suspend_node-tree_remove_suspend_node tree node serial e = ground arith
