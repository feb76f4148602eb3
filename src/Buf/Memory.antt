-- ===== src/Buf/Memory.antt =====
-- The memory of the page buffers of src/uffs_buf.c.
use esp_uffs.Prelude.{
  ℕ, ◌≡◌, ◌≢◌, refl, sym, ◌∙◌, ap, true, false, ◌==◌, ==_iff, inl, inr, arith, Bool-cases,
}
use esp_uffs.Buf.{Buf, store}

pub store_self : (buf : ℕ → Buf) (p : ℕ) (b : Buf) → store buf p b p ≡ b
unfolding store
store_self buf p b = let same : (p == p) ≡ true = ground arith in rw same refl

pub store_ne : (buf : ℕ → Buf) (p : ℕ) (b : Buf) (q : ℕ) → q ≢ p → store buf p b q ≡ buf q
unfolding store
store_ne buf p b q ne = let other : (q == p) ≡ false = ground arith in rw other refl

-- A part of the buffers that a write leaves alone.
pub store_same {ℓ} :
    {A : Type ℓ} (f : Buf → A) (buf : ℕ → Buf) (p : ℕ) (b : Buf) (q : ℕ)
    → f b ≡ f (buf p)
    → f (store buf p b q) ≡ f (buf q)
store_same f buf p b q same = elim (Bool-cases (q == p)) [
  | inl e ↦
      let at : q ≡ p = (==_iff q p).0 e in
      ap (λ r. f (store buf p b r)) at
      ∙ ap f (store_self buf p b)
      ∙ same
      ∙ ap (λ r. f (buf r)) (sym at)
  | inr e ↦ ap f (store_ne buf p b q (λ at. let h = (==_iff q p).1 at in cc))
]
