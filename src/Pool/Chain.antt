-- ===== src/Pool/Chain.antt =====
-- Chains of entries in the memory of src/uffs_pool.c, and what a good pool is.
use esp_uffs.Prelude.{
  write, subst, ℕ, zero, suc, ◌+◌, ◌*◌, ◌<◌, ◌≤◌, ◌≡◌, ◌≢◌, refl, sym, ◌∙◌, ap, ◌⊎◌, List, [], ◌∷◌,
  ◌==◌, if◌then◌else◌, arith, length,
}
use esp_uffs.Pool.{Pool}

-- `xs` are the entries from `e` on, in order, to the NULL at the end.
abbrev pub Chain : (ℕ → ℕ) → ℕ → List ℕ → Type 0
Chain next e [] = e ≡ 0
Chain next e (x ∷ xs) = (e ≡ x) × (x ≢ 0) × Chain next (next x) xs

abbrev pub Member : ℕ → List ℕ → Type 0
Member p [] = ⊥
Member p (x ∷ xs) = (p ≡ x) ⊎ Member p xs

abbrev pub Absent : ℕ → List ℕ → Type 0
Absent p [] = Unit {0}
Absent p (x ∷ xs) = (p ≢ x) × Absent p xs

abbrev pub Distinct : List ℕ → Type 0
Distinct [] = Unit {0}
Distinct (x ∷ xs) = Absent x xs × Distinct xs

-- The buffer with index `i` starts at `mem + i * buf_size`.
abbrev pub IsBlock : Pool → ℕ → Type 0
IsBlock pool p = (i : ℕ) × (i < pool.num_bufs) × (p ≡ pool.mem + i * pool.buf_size)

abbrev pub AllBlocks : Pool → List ℕ → Type 0
AllBlocks pool [] = Unit {0}
AllBlocks pool (x ∷ xs) = IsBlock pool x × AllBlocks pool xs

-- A pool in memory that fits its type, whose free buffers are `xs`.
pub record IsPool (pool : Pool) (xs : List ℕ) : Type 0 where
  pub mem_pos : 0 < pool.mem
  pub size_pos : 0 < pool.buf_size
  pub fits : pool.num_bufs * pool.buf_size < 4294967296
  pub chain : Chain pool.next pool.free_list xs
  pub blocks : AllBlocks pool xs
  pub distinct : Distinct xs

-- A write to an entry outside a chain leaves the chain.
pub Chain-write :
    (next : ℕ → ℕ) (e : ℕ) (xs : List ℕ) (p v : ℕ)
    → Chain next e xs
    → Absent p xs
    → Chain (write next p v) e xs
unfolding write
Chain-write next e [] p v c out = c
Chain-write next e (x ∷ xs) p v (here, nonzero, more) (ne, out) =
    let same : (if x == p then v else next x) ≡ next x = ground arith in
    let inner = Chain-write next (next x) xs p v more out in (here, nonzero, rw same inner)

drop_value : ℕ → List ℕ → List ℕ
drop_value n [] = []
drop_value n (x ∷ xs) = let rest = drop_value n xs in if x == n then rest else x ∷ rest

abbrev AllBelow : ℕ → List ℕ → Type 0
AllBelow n [] = Unit {0}
AllBelow n (x ∷ xs) = (x < n) × AllBelow n xs

drop_value-AllBelow : (n : ℕ) (xs : List ℕ) → AllBelow (suc n) xs → AllBelow n (drop_value n xs)
unfolding drop_value
drop_value-AllBelow n [] h = tt
drop_value-AllBelow n (x ∷ xs) h = let inner = drop_value-AllBelow n xs h.1 in ground arith

drop_value-Absent : (n x : ℕ) (xs : List ℕ) → Absent x xs → Absent x (drop_value n xs)
unfolding drop_value
drop_value-Absent n x [] h = tt
drop_value-Absent n x (y ∷ ys) h = let inner = drop_value-Absent n x ys h.1 in ground arith

drop_value-Distinct : (n : ℕ) (xs : List ℕ) → Distinct xs → Distinct (drop_value n xs)
unfolding drop_value
drop_value-Distinct n [] h = tt
drop_value-Distinct n (x ∷ xs) h =
    let inner = drop_value-Distinct n xs h.1 in
    let absent = drop_value-Absent n x xs h.0 in ground arith

drop_value-id : (n : ℕ) (xs : List ℕ) → Absent n xs → drop_value n xs ≡ xs
unfolding drop_value
drop_value-id n [] h = refl
drop_value-id n (x ∷ xs) h = let inner = drop_value-id n xs h.1 in ground arith

-- Distinct elements lose at most one to the removal of a value.
length-drop_value : (n : ℕ) (xs : List ℕ) → Distinct xs → length xs ≤ suc (length (drop_value n xs))
unfolding drop_value
length-drop_value n [] h = omega arith
length-drop_value n (x ∷ xs) h =
    let inner = length-drop_value n xs h.1 in
    let kept : x ≡ n → length (drop_value n xs) ≡ length xs =
      λ e. ap length (drop_value-id n xs (subst (λ y. Absent y xs) e h.0)) in
    ground arith

pigeonhole : (n : ℕ) (xs : List ℕ) → AllBelow n xs → Distinct xs → length xs ≤ n
pigeonhole zero [] h d = omega arith
pigeonhole zero (x ∷ xs) h d = absurd (omega (arith, h.0))
pigeonhole (suc n) xs h d =
    let inner =
      pigeonhole n (drop_value n xs) (drop_value-AllBelow n xs h) (drop_value-Distinct n xs d) in
    omega (arith, length-drop_value n xs d)

indices : (pool : Pool) (xs : List ℕ) → AllBlocks pool xs → List ℕ
indices pool [] h = []
indices pool (x ∷ xs) h = h.0.0 ∷ indices pool xs h.1

indices-AllBelow :
    (pool : Pool) (xs : List ℕ) (h : AllBlocks pool xs) → AllBelow pool.num_bufs (indices pool xs h)
unfolding indices
indices-AllBelow pool [] h = tt
indices-AllBelow pool (x ∷ xs) h = (h.0.1, indices-AllBelow pool xs h.1)

indices-Absent :
    (pool : Pool) (xs : List ℕ) (h : AllBlocks pool xs) (x i : ℕ)
    → x ≡ pool.mem + i * pool.buf_size
    → Absent x xs
    → Absent i (indices pool xs h)
unfolding indices
indices-Absent pool [] h x i e out = tt
indices-Absent pool (y ∷ ys) ((j, lt, e'), h) x i e (ne, out) = (
  λ same. ne (e ∙ ap (λ (k : ℕ). pool.mem + k * pool.buf_size) same ∙ sym e'),
  indices-Absent pool ys h x i e out,
)

indices-Distinct :
    (pool : Pool) (xs : List ℕ) (h : AllBlocks pool xs) → Distinct xs → Distinct (indices pool xs h)
unfolding indices
indices-Distinct pool [] h d = tt
indices-Distinct pool (x ∷ xs) ((i, lt, e), h) (out, d) =
    (indices-Absent pool xs h x i e out, indices-Distinct pool xs h d)

length-indices :
    (pool : Pool) (xs : List ℕ) (h : AllBlocks pool xs) → length (indices pool xs h) ≡ length xs
unfolding indices
length-indices pool [] h = refl
length-indices pool (x ∷ xs) h = ap suc (length-indices pool xs h.1)

-- No more buffers are free than there are.
pub free-le : (pool : Pool) (xs : List ℕ) → IsPool pool xs → length xs ≤ pool.num_bufs
free-le pool xs v =
    let inner =
      pigeonhole pool.num_bufs (indices pool xs v.blocks) (indices-AllBelow pool xs v.blocks)
        (indices-Distinct pool xs v.blocks v.distinct) in
    omega (arith, length-indices pool xs v.blocks)
