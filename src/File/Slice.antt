-- ===== src/File/Slice.antt =====
-- src/uffs_fs.c: ranges of bytes, which reads put together.
use esp_uffs.Prelude.{
  ℕ, zero, suc, ◌+◌, ◌<◌, ◌≤◌, ◌≡◌, refl, ◌∙◌, ap, ap₂, ◌∷◌, ◌++◌, arith, leb, Bool-cases, inl, inr,
  false,
}
use esp_uffs.Prelude.Words.{u32}
use esp_uffs.Flash.{Bytes}
use esp_uffs.TagStore.{slice}
use esp_uffs.DirtyBuf.{read_size}

pub slice_add :
    (b : Bytes) (from m n : ℕ) → slice b from (m + n) ≡ slice b from m ++ slice b (from + m) n
unfolding slice
slice_add b from zero n = ap₂ (λ a k. slice b a k) (omega arith) (omega arith)
slice_add b from (suc m) n =
    let e : suc m + n ≡ suc (m + n) = omega arith in
    ap (λ k. slice b from k) e
    ∙ ap (λ l. b from ∷ l)
        (slice_add b (from + 1) m n ∙ ap (λ a. slice b (from + 1) m ++ slice b a n) (omega arith))

pub slice_same :
    (b c : Bytes) (from at n : ℕ)
    → ((j : ℕ) → j < n → b (from + j) ≡ c (at + j))
    → slice b from n ≡ slice c at n
unfolding slice
slice_same b c from at zero h = refl
slice_same b c from at (suc n) h =
    ap₂ ◌∷◌ (ap b (omega arith) ∙ h 0 (omega arith) ∙ ap c (omega arith)) (
      slice_same b c (from + 1) (at + 1) n
        (λ j lt. ap b (omega arith) ∙ h (j + 1) (omega arith) ∙ ap c (omega arith)))

-- A read inside of the page is not cut.
pub read_size_inside :
    (page ofs n : ℕ) → 0 < n → ofs + n ≤ page → page < 4294967296 → read_size page ofs n ≡ n
unfolding read_size
read_size_inside page ofs n some_bytes fits small =
    let a : leb page ofs ≡ false = (let lt : ofs < page = omega arith in ground arith) in
    let wide : u32 (ofs + n) ≡ ofs + n = omega arith in
    rw (a, wide)
      (elim (Bool-cases (leb page (ofs + n))) [
        | inl t ↦ rw t (let le : page ≤ ofs + n = ground arith in omega arith)
        | inr f ↦ rw f refl
      ])
