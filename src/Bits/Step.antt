-- ===== src/Bits/Step.antt =====
-- Binary digits: fuel beyond the number itself makes no difference to an operation on them.
use Prim.Native.Nat.{digits}
use esp_uffs.Prelude.{ℕ, zero, suc, ◌/◌, ◌≤◌, ◌≡◌, refl, arith}

module _ (rest : ℕ → ℕ) (digit : ℕ → ℕ → ℕ) where
  settled :
      (top fuel x y : ℕ)
      → fuel ≤ top
      → x ≤ fuel
      → digits rest digit fuel x y ≡ digits rest digit x x y
  settled top zero zero y under enough = refl
  settled top (suc fuel) zero y under enough = refl
  settled top zero (suc x) y under enough = absurd (omega arith)
  settled zero (suc fuel) (suc x) y under enough = absurd (omega arith)
  settled (suc top) (suc fuel) (suc x) y under enough =
      let left = settled top fuel (suc x / 2) (y / 2) (omega arith) (omega arith) in
      let right = settled top x (suc x / 2) (y / 2) (omega arith) (omega arith) in
      rw (left, right) refl

  pub digits_settled :
      (fuel x y : ℕ) → x ≤ fuel → digits rest digit fuel x y ≡ digits rest digit x x y
  digits_settled fuel x y enough = settled fuel fuel x y (omega arith) enough
