-- ===== src/DirtyBuf/Least.antt =====
-- The dirty page that src/uffs_buf.c writes first.
use esp_uffs.Prelude.{
  ℕ, ◌≤◌, ◌≡◌, refl, sym, subst, List, [], ◌∷◌, some, ltb, ◌⊎◌, inl, inr, arith, Bool-cases,
}
use esp_uffs.Pool.Chain.{Member}
use esp_uffs.Buf.{Buf}
use esp_uffs.DirtyBuf.{least_loop, find_minimum_page_id}

abbrev pub AllFrom : (ℕ → Buf) → ℕ → List ℕ → Type 0
AllFrom buf n [] = Unit {0}
AllFrom buf n (p ∷ rest) = (n ≤ (buf p).page_id) × AllFrom buf n rest

abbrev IsLeast : (ℕ → Buf) → ℕ → ℕ → List ℕ → ℕ → Type 0
IsLeast buf p q rest r =
    ((r ≡ p) ⊎ Member r (q ∷ rest))
    × ((buf r).page_id ≤ (buf p).page_id)
    × AllFrom buf (buf r).page_id (q ∷ rest)

least_loop-AllFrom :
    (buf : ℕ → Buf) (p : ℕ) (qs : List ℕ)
    → let q = least_loop buf p qs in
      ((q ≡ p) ⊎ Member q qs) × ((buf q).page_id ≤ (buf p).page_id) × AllFrom buf (buf q).page_id qs
unfolding least_loop
least_loop-AllFrom buf p [] = (inl refl, omega arith, tt)
least_loop-AllFrom buf p (q ∷ rest) = elim (Bool-cases (ltb (buf q).page_id (buf p).page_id)) [
  | inl e ↦
      let (at, le, all) = least_loop-AllFrom buf q rest in
      let same : least_loop buf p (q ∷ rest) ≡ least_loop buf q rest = rw e refl in
      subst (IsLeast buf p q rest) (sym same) (inr at, ground arith, (le, all))
  | inr e ↦
      let (at, le, all) = least_loop-AllFrom buf p rest in
      let same : least_loop buf p (q ∷ rest) ≡ least_loop buf p rest = rw e refl in
      subst (IsLeast buf p q rest) (sym same)
        ((elim at [ inl here ↦ inl here | inr m ↦ inr (inr m) ]), le, (ground arith, all))
]

-- For a dirty list that is not empty, _FindMinimunPageIdFromDirtyList gives one of its buffers,
-- with the lowest page id.
pub find_minimum_page_id-AllFrom :
    (buf : ℕ → Buf) (p : ℕ) (rest : List ℕ)
    → (q : ℕ) × (find_minimum_page_id buf (p ∷ rest) ≡ some q)
      × Member q (p ∷ rest)
      × AllFrom buf (buf q).page_id (p ∷ rest)
unfolding find_minimum_page_id
find_minimum_page_id-AllFrom buf p rest =
    let (at, le, all) = least_loop-AllFrom buf p rest in
    (least_loop buf p rest, refl, at, (le, all))
