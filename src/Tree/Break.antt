-- ===== src/Tree/Break.antt =====
-- `uffs_BreakFromEntry` of src/uffs_tree.c takes a node out of the middle of a chain.
use esp_uffs.Prelude.{
  ℕ, ◌≡◌, ◌≢◌, refl, sym, ◌∙◌, ap, List, [], ◌∷◌, ◌++◌, Bool, true, false, ◌==◌, ==_iff,
  if◌then◌else◌, arith, write, write_self, write_ne, subst, Bool-cases, inl, inr, ◌⊎◌,
}
use esp_uffs.Tree.{Table, empty_node, break_from_chain}
use esp_uffs.Tree.Find.{Missing, Different}
use esp_uffs.Tree.Hash.{Links, AllHome, IsTable, first_home, pointwise, home-Missing}

abbrev Agree : (ℕ → ℕ) → (ℕ → ℕ) → List ℕ → Type 0
Agree f g [] = Unit {0}
Agree f g (n ∷ xs) = (g n ≡ f n) × Agree f g xs

Missing-Agree :
    (f g : ℕ → ℕ) (a : ℕ) (xs : List ℕ)
    → ((n : ℕ) → n ≢ a → g n ≡ f n)
    → Missing a xs
    → Agree f g xs
Missing-Agree f g a [] h out = tt
Missing-Agree f g a (n ∷ xs) h out = (h n out.0, Missing-Agree f g a xs h out.1)

Links-Agree :
    (next prev next' prev' : ℕ → ℕ) (p x : ℕ) (xs : List ℕ)
    → Agree next next' xs
    → Agree prev prev' xs
    → Links next prev p x xs
    → Links next' prev' p x xs
Links-Agree next prev next' prev' p x [] a b l = l
Links-Agree next prev next' prev' p x (n ∷ xs) a b (here, real, back, more) = (
  here,
  real,
  b.0 ∙ back,
  subst (λ t. Links next' prev' n t xs) (sym a.0)
      (Links-Agree next prev next' prev' n (next n) xs a.1 b.1 more),
)

Links-real :
    (next prev : ℕ → ℕ) (p x : ℕ) (xs : List ℕ) → Links next prev p x xs → Missing empty_node xs
Links-real next prev p x [] l = tt
Links-real next prev p x (n ∷ xs) l = (l.1, Links-real next prev n (next n) xs l.3)

Missing-left : (a node : ℕ) (ys zs : List ℕ) → Missing a (ys ++ node ∷ zs) → Missing a ys
Missing-left a node [] zs h = tt
Missing-left a node (y ∷ ys) zs h = (h.0, Missing-left a node ys zs h.1)

Missing-right :
    (a node : ℕ) (ys zs : List ℕ) → Missing a (ys ++ node ∷ zs) → (node ≢ a) × Missing a zs
Missing-right a node [] zs h = h
Missing-right a node (y ∷ ys) zs h = Missing-right a node ys zs h.1

Missing-drop : (a node : ℕ) (ys zs : List ℕ) → Missing a (ys ++ node ∷ zs) → Missing a (ys ++ zs)
Missing-drop a node [] zs h = h.1
Missing-drop a node (y ∷ ys) zs h = (h.0, Missing-drop a node ys zs h.1)

Different-drop : (node : ℕ) (ys zs : List ℕ) → Different (ys ++ node ∷ zs) → Different (ys ++ zs)
Different-drop node [] zs d = d.1
Different-drop node (y ∷ ys) zs d = (Missing-drop y node ys zs d.0, Different-drop node ys zs d.1)

AllHome-drop :
    (home : ℕ → ℕ) (h node : ℕ) (ys zs : List ℕ)
    → AllHome home h (ys ++ node ∷ zs)
    → AllHome home h (ys ++ zs)
AllHome-drop home h node [] zs a = a.1
AllHome-drop home h node (y ∷ ys) zs a = (a.0, AllHome-drop home h node ys zs a.1)

AllHome-right :
    (home : ℕ → ℕ) (h node : ℕ) (ys zs : List ℕ)
    → AllHome home h (ys ++ node ∷ zs)
    → AllHome home h zs
AllHome-right home h node [] zs a = a.1
AllHome-right home h node (y ∷ ys) zs a = AllHome-right home h node ys zs a.1

Different-Missing : (node : ℕ) (ys zs : List ℕ) → Different (ys ++ node ∷ zs) → Missing node ys
Different-Missing node [] zs d = tt
Different-Missing node (y ∷ ys) zs d =
    ((λ e. (Missing-right y node ys zs d.0).0 (sym e)), Different-Missing node ys zs d.1)

-- What stands before and behind the node in its chain.
behind :
    (next prev : ℕ → ℕ) (q x node : ℕ) (ys zs : List ℕ)
    → Links next prev q x (ys ++ node ∷ zs)
    → (node ≢ empty_node) × Links next prev node (next node) zs
behind next prev q x node [] zs l = (l.1, l.3)
behind next prev q x node (y ∷ ys) zs l = behind next prev y (next y) node ys zs l.3

before-ne :
    (next prev : ℕ → ℕ) (q x node a : ℕ) (ys zs : List ℕ)
    → Links next prev q x (ys ++ node ∷ zs)
    → q ≢ a
    → Missing a ys
    → prev node ≢ a
before-ne next prev q x node a [] zs l ne out = λ e. ne (sym l.2 ∙ e)
before-ne next prev q x node a (y ∷ ys) zs l ne out =
    before-ne next prev y (next y) node a ys zs l.3 out.0 out.1

before-home :
    (next prev : ℕ → ℕ) (q x node h : ℕ) (home : ℕ → ℕ) (ys zs : List ℕ)
    → Links next prev q x (ys ++ node ∷ zs)
    → AllHome home h (ys ++ node ∷ zs)
    → (q ≡ empty_node) ⊎ (home q ≡ h)
    → (prev node ≡ empty_node) ⊎ (home (prev node) ≡ h)
before-home next prev q x node h home [] zs l a (inl e) = inl (l.2 ∙ e)
before-home next prev q x node h home [] zs l a (inr e) = inr (ap home l.2 ∙ e)
before-home next prev q x node h home (y ∷ ys) zs l a start =
    before-home next prev y (next y) node h home ys zs l.3 a.1 (inr a.0)

next-ne :
    (next prev : ℕ → ℕ) (p x a : ℕ) (zs : List ℕ)
    → Links next prev p x zs
    → a ≢ empty_node
    → Missing a zs
    → x ≢ a
next-ne next prev p x a [] l real out = λ e. real (sym e ∙ l)
next-ne next prev p x a (z ∷ zs) l real out = λ e. out.0 (sym l.0 ∙ e)

-- The links after the node was taken out.
record IsCut (next prev next' prev' : ℕ → ℕ) (node : ℕ) : Type 0 where
  next_ne : (n : ℕ) → n ≢ prev node → next' n ≡ next n
  prev_ne : (n : ℕ) → n ≢ next node → prev' n ≡ prev n
  next_at : prev node ≢ empty_node → next' (prev node) ≡ next node
  prev_at : next node ≢ empty_node → prev' (next node) ≡ prev node

abbrev start : (ℕ → ℕ) → ℕ → List ℕ → ℕ → ℕ
start next node [] x = next node
start next node (y ∷ ys) x = x

cut-right :
    (next prev next' prev' : ℕ → ℕ) (q node : ℕ) (zs : List ℕ)
    → IsCut next prev next' prev' node
    → prev node ≡ q
    → Links next prev node (next node) zs
    → Different zs
    → Missing q zs
    → Links next' prev' q (next node) zs
cut-right next prev next' prev' q node [] c back l d out = l
cut-right next prev next' prev' q node (z ∷ zs) c back (here, real, at, more) d out =
    let own : prev' z ≡ q = ap prev' (sym here) ∙ c.prev_at (λ e. real (sym here ∙ e)) ∙ back in
    let out' = subst (λ t. Missing t (z ∷ zs)) (sym back) out in
    let tail =
      Links-Agree next prev next' prev' z (next z) zs
        (Missing-Agree next next' (prev node) zs c.next_ne out'.1)
        (Missing-Agree prev prev' (next node) zs c.prev_ne
          (subst (λ t. Missing t zs) (sym here) d.0))
        more in
    (here, real, own, subst (λ t. Links next' prev' z t zs) (sym (c.next_ne z out'.0)) tail)

follow :
    (next prev next' prev' : ℕ → ℕ) (y node : ℕ) (ys zs : List ℕ)
    → IsCut next prev next' prev' node
    → y ≢ empty_node
    → Links next prev y (next y) (ys ++ node ∷ zs)
    → Missing y (ys ++ node ∷ zs)
    → next' y ≡ start next node ys (next y)
follow next prev next' prev' y node [] zs c real l out =
    ap next' (sym l.2) ∙ c.next_at (λ e. real (sym l.2 ∙ e))
follow next prev next' prev' y node (w ∷ ys) zs c real l out = c.next_ne y (λ e.
    before-ne next prev w (next w) node y ys zs l.3 out.0 (Missing-left y node ys zs out.1) (sym e))

cut :
    (next prev next' prev' : ℕ → ℕ) (q x node : ℕ) (ys zs : List ℕ)
    → IsCut next prev next' prev' node
    → Links next prev q x (ys ++ node ∷ zs)
    → Different (ys ++ node ∷ zs)
    → Missing q (ys ++ node ∷ zs)
    → Links next' prev' q (start next node ys x) (ys ++ zs)
cut next prev next' prev' q x node [] zs c l d out =
    cut-right next prev next' prev' q node zs c l.2 l.3 d.1 out.1
cut next prev next' prev' q x node (y ∷ ys) zs c l d out =
    let (real_node, rest) = behind next prev y (next y) node ys zs l.3 in
    let far = Missing-right y node ys zs d.0 in
    let inner = cut next prev next' prev' y (next y) node ys zs c l.3 d.1 d.0 in
    (
      l.0,
      l.1,
      c.prev_ne y (λ e. next-ne next prev node (next node) y zs rest l.1 far.1 (sym e)) ∙ l.2,
      subst (λ t. Links next' prev' y t (ys ++ zs))
          (sym (follow next prev next' prev' y node ys zs c l.1 l.3 d.0)) inner,
    )

conditional_ne : (b : Bool) (f : ℕ → ℕ) (a v n : ℕ) → n ≢ a → (if b then f else write f a v) n ≡ f n
conditional_ne true f a v n ne = refl
conditional_ne false f a v n ne = write_ne f a v n ne

conditional_at :
    (f : ℕ → ℕ) (a v : ℕ) → a ≢ empty_node → (if a == empty_node then f else write f a v) a ≡ v
conditional_at f a v real =
    let given : (a == empty_node) ≡ false = ground arith in rw given (write_self f a v)

break-IsCut :
    (t : Table) (hash node : ℕ)
    → node ≢ t.hash_prev node
    → IsCut t.hash_next t.hash_prev
        (break_from_chain t hash node).hash_next
        (break_from_chain t hash node).hash_prev
        node
unfolding break_from_chain
break-IsCut t hash node apart =
    let p = t.hash_prev node in
    let n = t.hash_next node in
    let next' = if p == empty_node then t.hash_next else write t.hash_next p n in
    let same : next' node ≡ n = conditional_ne (p == empty_node) t.hash_next p n node apart in
    record {
      next_ne = λ m ne. conditional_ne (p == empty_node) t.hash_next p n m ne;
      prev_ne = λ m ne.
          conditional_ne (next' node == empty_node) t.hash_prev (next' node) p m
            (λ e. ne (e ∙ same));
      next_at = λ real. conditional_at t.hash_next p n real;
      prev_at = λ real.
          subst (λ k. (if k == empty_node then t.hash_prev else write t.hash_prev k p) n ≡ p)
            (sym same) (conditional_at t.hash_prev n p real);
    }

break-entry_other :
    (t : Table) (at node h : ℕ) → h ≢ at → (break_from_chain t at node).entry h ≡ t.entry h
unfolding break_from_chain
break-entry_other t at node h ne = elim (Bool-cases (t.entry at == node)) [
  | inl b ↦ rw b (write_ne t.entry at _ h ne)
  | inr b ↦ rw b refl
]

break-entry :
    (t : Table) (at node : ℕ) (ys zs : List ℕ)
    → node ≢ t.hash_prev node
    → Links t.hash_next t.hash_prev empty_node (t.entry at) (ys ++ node ∷ zs)
    → Missing node ys
    → (break_from_chain t at node).entry at ≡ start t.hash_next node ys (t.entry at)
unfolding break_from_chain
break-entry t at node [] zs apart l out =
    let first : (t.entry at == node) ≡ true = (==_iff (t.entry at) node).1 l.0 in
    rw first (
      write_self t.entry at _
      ∙ conditional_ne (t.hash_prev node == empty_node) t.hash_next (t.hash_prev node)
          (t.hash_next node) node apart)
break-entry t at node (y ∷ ys) zs apart l out =
    let here = l.0 in
    let ne = out.0 in let first : (t.entry at == node) ≡ false = ground arith in rw first refl

-- uffs_BreakFromEntry, given a hash table of disjoint doubly linked chains and a node of one of
-- them, takes the node out of that chain, keeps both links of every node right, and leaves every
-- other chain as it was.
pub break_from_chain-IsTable :
    (t : Table) (home : ℕ → ℕ) (chains : ℕ → List ℕ) (node : ℕ) (ys zs : List ℕ)
    → IsTable t home chains
    → chains (home node) ≡ ys ++ node ∷ zs
    → IsTable
        (break_from_chain t (home node) node)
        home
        (λ h. if h == home node then ys ++ zs else chains h)
break_from_chain-IsTable t home chains node ys zs v split =
    let at = home node in
    let new = break_from_chain t at node in
    let links = subst (Links t.hash_next t.hash_prev empty_node (t.entry at)) split (v.links at) in
    let homes = subst (AllHome home at) split (v.homes at) in
    let different = subst Different split (v.different at) in
    let (real, rest) = behind t.hash_next t.hash_prev empty_node (t.entry at) node ys zs links in
    let out = Different-Missing node ys zs different in
    let apart : node ≢ t.hash_prev node = λ e.
      before-ne t.hash_next t.hash_prev empty_node (t.entry at) node node ys zs links
        (λ e'. real (sym e')) out (sym e) in
    let c = break-IsCut t at node apart in
    let own =
      subst (λ x. Links new.hash_next new.hash_prev empty_node x (ys ++ zs))
        (sym (break-entry t at node ys zs apart links out))
        (cut t.hash_next t.hash_prev new.hash_next new.hash_prev empty_node (t.entry at) node ys zs
          c links different
          (Links-real t.hash_next t.hash_prev empty_node (t.entry at) (ys ++ node ∷ zs) links)) in
    let missing : (a h : ℕ) → h ≢ at → (a ≡ empty_node) ⊎ (home a ≡ at) → Missing a (chains h) =
      λ a h ne where_a. elim where_a [
        | inl e ↦
            subst (λ k. Missing k (chains h)) (sym e)
              (Links-real t.hash_next t.hash_prev empty_node (t.entry h) (chains h) (v.links h))
        | inr e ↦ home-Missing home h a (chains h) (λ e'. ne (sym e' ∙ e)) (v.homes h)
      ] in
    let p_home =
      before-home t.hash_next t.hash_prev empty_node (t.entry at) node at home ys zs links homes
        (inl refl) in
    let n_home =
      first_home t.hash_next t.hash_prev node (t.hash_next node) home at zs rest
        (AllHome-right home at node ys zs homes) in
    let other : (h : ℕ)
        → h ≢ at
        → Links new.hash_next new.hash_prev empty_node (new.entry h) (chains h) =
      λ h ne.
        subst (λ x. Links new.hash_next new.hash_prev empty_node x (chains h))
          (sym (break-entry_other t at node h ne))
          (Links-Agree t.hash_next t.hash_prev new.hash_next new.hash_prev empty_node (t.entry h)
            (chains h)
            (Missing-Agree t.hash_next new.hash_next (t.hash_prev node) (chains h) c.next_ne
              (missing _ h ne p_home))
            (Missing-Agree t.hash_prev new.hash_prev (t.hash_next node) (chains h) c.prev_ne
              (missing _ h ne n_home))
            (v.links h)) in
    record {
      links =
          pointwise (λ h xs. Links new.hash_next new.hash_prev empty_node (new.entry h) xs) at
            (ys ++ zs) chains own other;
      homes =
          pointwise (AllHome home) at (ys ++ zs) chains (AllHome-drop home at node ys zs homes)
            (λ h ne. v.homes h);
      different =
          pointwise (λ h xs. Different xs) at (ys ++ zs) chains
            (Different-drop node ys zs different) (λ h ne. v.different h);
    }
