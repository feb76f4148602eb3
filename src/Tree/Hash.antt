-- ===== src/Tree/Hash.antt =====
-- The hash tables of src/uffs_tree.c: doubly linked chains of nodes.
use esp_uffs.Prelude.{
  ℕ, ◌≡◌, ◌≢◌, refl, sym, ◌∙◌, ap, List, [], ◌∷◌, true, false, ◌==◌, ==_iff, if◌then◌else◌, arith,
  write, write_self, write_ne, subst, Bool-cases, inl, inr, ◌⊎◌,
}
use esp_uffs.Tree.{Table, empty_node, insert_to_entry}
use esp_uffs.Tree.Find.{Missing, Different, Walk}

-- `xs` are linked both ways, from `x` on, with `p` before the first of them.
abbrev pub Links : (ℕ → ℕ) → (ℕ → ℕ) → ℕ → ℕ → List ℕ → Type 0
Links next prev p x [] = x ≡ empty_node
Links next prev p x (n ∷ xs) =
    (x ≡ n) × (n ≢ empty_node) × (prev n ≡ p) × Links next prev n (next n) xs

abbrev pub AllHome : (ℕ → ℕ) → ℕ → List ℕ → Type 0
AllHome home h [] = Unit {0}
AllHome home h (n ∷ xs) = (home n ≡ h) × AllHome home h xs

-- The table holds the nodes of `chains h` at each hash `h`, and each node at its own hash.
pub record IsTable (t : Table) (home : ℕ → ℕ) (chains : ℕ → List ℕ) : Type 0 where
  pub links : (h : ℕ) → Links t.hash_next t.hash_prev empty_node (t.entry h) (chains h)
  pub homes : (h : ℕ) → AllHome home h (chains h)
  pub different : (h : ℕ) → Different (chains h)

pub Links-Walk :
    (next prev : ℕ → ℕ) (p x : ℕ) (xs : List ℕ) → Links next prev p x xs → Walk next x xs
Links-Walk next prev p x [] l = l
Links-Walk next prev p x (n ∷ xs) (here, real, back, more) =
    (here, real, Links-Walk next prev n (next n) xs more)

pub home-Missing :
    (home : ℕ → ℕ) (h a : ℕ) (xs : List ℕ) → home a ≢ h → AllHome home h xs → Missing a xs
home-Missing home h a [] ne all = tt
home-Missing home h a (n ∷ xs) ne (at, all) =
    ((λ e. ne (ap home (sym e) ∙ at)), home-Missing home h a xs ne all)

Links-write_next :
    (next prev : ℕ → ℕ) (p x a v : ℕ) (xs : List ℕ)
    → Missing a xs
    → Links next prev p x xs
    → Links (write next a v) prev p x xs
Links-write_next next prev p x a v [] out l = l
Links-write_next next prev p x a v (n ∷ xs) (ne, out) (here, real, back, more) = (
  here,
  real,
  back,
  rw (write_ne next a v n ne) (Links-write_next next prev n (next n) a v xs out more),
)

Links-write_prev :
    (next prev : ℕ → ℕ) (p x a v : ℕ) (xs : List ℕ)
    → Missing a xs
    → Links next prev p x xs
    → Links next (write prev a v) p x xs
Links-write_prev next prev p x a v [] out l = l
Links-write_prev next prev p x a v (n ∷ xs) (ne, out) (here, real, back, more) = (
  here,
  real,
  write_ne prev a v n ne ∙ back,
  Links-write_prev next prev n (next n) a v xs out more,
)

-- A chain gets a new first node.
front :
    (next prev : ℕ → ℕ) (x node : ℕ) (xs : List ℕ)
    → node ≢ empty_node
    → Missing node xs
    → Different xs
    → Links next prev empty_node x xs
    → Links
        (write next node x)
        (if x == empty_node
          then write prev node empty_node
          else write (write prev node empty_node) x node)
        empty_node
        node
        (node ∷ xs)
front next prev x node [] real out d l =
    let nothing : (x == empty_node) ≡ true = ground arith in
    rw nothing (refl, real, write_self prev node empty_node, write_self next node x ∙ l)
front next prev x node (n ∷ xs) real out d (here, real_n, back, more) =
    let some_node : (x == empty_node) ≡ false = ground arith in
    let ne : node ≢ x = λ e. out.0 (sym (e ∙ here)) in
    let own : write (write prev node empty_node) x node node ≡ empty_node =
      write_ne _ x node node ne ∙ write_self prev node empty_node in
    let at_n : write (write prev node empty_node) x node n ≡ node =
      ap (write (write prev node empty_node) x node) (sym here) ∙ write_self _ x node in
    let follow : write next node x node ≡ n = write_self next node x ∙ here in
    let tail =
      Links-write_prev (write next node x) (write prev node empty_node) n (next n) x node xs
        (subst (λ t. Missing t xs) (sym here) d.0)
        (Links-write_prev (write next node x) prev n (next n) node empty_node xs out.1
          (Links-write_next next prev n (next n) node x xs out.1 more)) in
    let behind =
      subst (λ t. Links (write next node x) (write (write prev node empty_node) x node) n t xs)
        (sym (write_ne next node x n out.0)) tail in
    let done : Links (write next node x) (write (write prev node empty_node) x node) empty_node node
        (node ∷ n ∷ xs) =
      (refl, real, own, (follow, real_n, at_n, behind)) in
    subst
      (λ b.
        Links (write next node x)
          (if b then write prev node empty_node else write (write prev node empty_node) x node)
          empty_node node (node ∷ n ∷ xs))
      (sym some_node) done

-- Another chain is left as it was.
apart :
    (next prev : ℕ → ℕ) (y x node : ℕ) (ys : List ℕ)
    → Missing node ys
    → ((x ≡ empty_node) ⊎ Missing x ys)
    → Links next prev empty_node y ys
    → Links
        (write next node x)
        (if x == empty_node
          then write prev node empty_node
          else write (write prev node empty_node) x node)
        empty_node
        y
        ys
apart next prev y x node ys out (inl e) l =
    let nothing : (x == empty_node) ≡ true = ground arith in
    rw nothing (
      Links-write_prev (write next node x) prev empty_node y node empty_node ys out
        (Links-write_next next prev empty_node y node x ys out l))
apart next prev y x node ys out (inr out_x) l =
    let once =
      Links-write_prev (write next node x) prev empty_node y node empty_node ys out
        (Links-write_next next prev empty_node y node x ys out l) in
    let twice =
      Links-write_prev (write next node x) (write prev node empty_node) empty_node y x node ys out_x
        once in
    elim (Bool-cases (x == empty_node)) [ inl t ↦ rw t once | inr f ↦ rw f twice ]

pub first_home :
    (next prev : ℕ → ℕ) (p x : ℕ) (home : ℕ → ℕ) (h : ℕ) (xs : List ℕ)
    → Links next prev p x xs
    → AllHome home h xs
    → (x ≡ empty_node) ⊎ (home x ≡ h)
first_home next prev p x home h [] l all = inl l
first_home next prev p x home h (n ∷ xs) l all = inr (ap home l.0 ∙ all.0)

-- The first node of one chain is not in another.
first-Missing :
    (t : Table) (home : ℕ → ℕ) (chains : ℕ → List ℕ) (hash h : ℕ)
    → IsTable t home chains
    → h ≢ hash
    → (t.entry hash ≡ empty_node) ⊎ Missing (t.entry hash) (chains h)
first-Missing t home chains hash h v ne =
    elim (first_home t.hash_next t.hash_prev empty_node (t.entry hash) home hash (chains hash)
      (v.links hash) (v.homes hash)) [
        | inl e ↦ inl e
        | inr at ↦
            inr (home-Missing home h (t.entry hash) (chains h) (λ e. ne (sym e ∙ at)) (v.homes h))
      ]

-- A property of every chain, when one of them is replaced.
pub pointwise :
    (P : ℕ → List ℕ → Type 0) (at : ℕ) (new : List ℕ) (chains : ℕ → List ℕ)
    → P at new
    → ((h : ℕ) → h ≢ at → P h (chains h))
    → (h : ℕ) → P h (if h == at then new else chains h)
pointwise P at new chains one others h = elim (Bool-cases (h == at)) [
  | inl same ↦ rw same (subst (λ t. P t new) (sym ((==_iff h at).0 same)) one)
  | inr differ ↦ rw differ (others h (λ e. absurd (ground arith)))
]

-- _InsertToEntry, given a hash table of disjoint doubly linked chains and a node that is not in
-- the chain of its own hash, puts the node at the front of that chain, keeps both links of every
-- node right, and leaves every other chain as it was.
pub insert_to_entry-IsTable :
    (t : Table) (home : ℕ → ℕ) (chains : ℕ → List ℕ) (node : ℕ)
    → IsTable t home chains
    → node ≢ empty_node
    → Missing node (chains (home node))
    → IsTable
        (insert_to_entry t (home node) node)
        home
        (λ h. if h == home node then node ∷ chains (home node) else chains h)
unfolding insert_to_entry
insert_to_entry-IsTable t home chains node v real out =
    let at = home node in
    let first = t.entry at in
    let new = insert_to_entry t at node in
    let own =
      subst (λ x. Links new.hash_next new.hash_prev empty_node x (node ∷ chains at))
        (sym (write_self t.entry at node))
        (front t.hash_next t.hash_prev first node (chains at) real out (v.different at)
          (v.links at)) in
    let other : (h : ℕ)
        → h ≢ at
        → Links new.hash_next new.hash_prev empty_node (new.entry h) (chains h) =
      λ h ne.
        subst (λ x. Links new.hash_next new.hash_prev empty_node x (chains h))
          (sym (write_ne t.entry at node h ne))
          (apart t.hash_next t.hash_prev (t.entry h) first node (chains h)
            (home-Missing home h node (chains h) (λ e. ne (sym e)) (v.homes h))
            (first-Missing t home chains at h v ne) (v.links h)) in
    record {
      links =
          pointwise (λ h xs. Links new.hash_next new.hash_prev empty_node (new.entry h) xs) at
            (node ∷ chains at) chains own other;
      homes =
          pointwise (AllHome home) at (node ∷ chains at) chains (refl, v.homes at)
            (λ h ne. v.homes h);
      different =
          pointwise (λ h xs. Different xs) at (node ∷ chains at) chains (out, v.different at)
            (λ h ne. v.different h);
    }
