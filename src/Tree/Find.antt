-- ===== src/Tree/Find.antt =====
-- Walks of chains of nodes in src/uffs_tree.c.
use esp_uffs.Prelude.{
  ℕ, zero, suc, ◌<◌, ◌≡◌, ◌≢◌, sym, ◌∙◌, List, [], ◌∷◌, ◌++◌, Bool, some, if◌then◌else◌, length,
  arith, write, write_self, write_ne,
}
use esp_uffs.Tree.{empty_node, find_in_chain}

-- `xs` are the nodes from `x` on, in order, to the NULL at the end.
abbrev pub Walk : (ℕ → ℕ) → ℕ → List ℕ → Type 0
Walk next x [] = x ≡ empty_node
Walk next x (n ∷ xs) = (x ≡ n) × (n ≢ empty_node) × Walk next (next n) xs

abbrev pub Missing : ℕ → List ℕ → Type 0
Missing a [] = Unit {0}
Missing a (n ∷ xs) = (n ≢ a) × Missing a xs

abbrev pub Different : List ℕ → Type 0
Different [] = Unit {0}
Different (n ∷ xs) = Missing n xs × Different xs

-- The first element that passes the test, or EMPTY_NODE.
unfoldable pub first_match : (ℕ → Bool) → List ℕ → ℕ
first_match test [] = empty_node
first_match test (n ∷ xs) = let rest = first_match test xs in if test n then n else rest

-- The walk of a chain that ends after fewer nodes than its rounds ends, and gives the first node
-- that passes the test, or NULL when none does.
pub find_in_chain-first_match :
    (fuel : ℕ) (next : ℕ → ℕ) (test : ℕ → Bool) (x : ℕ) (xs : List ℕ)
    → length xs < fuel
    → Walk next x xs
    → find_in_chain fuel next test x ≡ some (first_match test xs)
unfolding find_in_chain first_match
find_in_chain-first_match zero next test x xs h w = absurd (omega arith)
find_in_chain-first_match (suc fuel) next test x [] h w = ground arith
find_in_chain-first_match (suc fuel) next test x (n ∷ xs) h (here, real, more) =
    let inner = find_in_chain-first_match fuel next test (next n) xs (omega arith) more in
    rw here (ground arith)

pub Walk-write :
    (next : ℕ → ℕ) (x a v : ℕ) (xs : List ℕ)
    → Walk next x xs
    → Missing a xs
    → Walk (write next a v) x xs
Walk-write next x a v [] w h = w
Walk-write next x a v (n ∷ xs) (here, real, more) (ne, out) =
    (here, real, rw (write_ne next a v n ne) (Walk-write next (next n) a v xs more out))

Missing-last : (n : ℕ) (xs : List ℕ) (last : ℕ) → Missing n (xs ++ last ∷ []) → n ≢ last
Missing-last n [] last h = λ e. h.0 (sym e)
Missing-last n (x ∷ xs) last h = Missing-last n xs last h.1

-- A walk continued by one node at its end.
pub Walk-append :
    (next : ℕ → ℕ) (x last a : ℕ) (xs : List ℕ)
    → Walk next x (xs ++ last ∷ [])
    → Missing a (xs ++ last ∷ [])
    → Different (xs ++ last ∷ [])
    → a ≢ empty_node
    → Walk (write (write next a empty_node) last a) x (xs ++ last ∷ a ∷ [])
Walk-append next x last a [] (here, real, end) (ne, out) d real_a = (
  here,
  real,
  (
    write_self _ last a,
    real_a,
    write_ne (write next a empty_node) last a a (λ e. ne (sym e)) ∙ write_self next a empty_node,
  ),
)
Walk-append next x last a (n ∷ xs) (here, real, more) (ne, out) (miss, d) real_a =
    let same : write (write next a empty_node) last a n ≡ next n =
      write_ne _ last a n (Missing-last n xs last miss) ∙ write_ne next a empty_node n ne in
    (here, real, rw same (Walk-append next (next n) last a xs more out d real_a))
