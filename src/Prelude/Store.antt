-- ===== src/Prelude/Store.antt =====
-- A store of one field: a function of the address, changed at one address by a write.
use Prim.Native.Nat.{ℕ}
use mathlib.Core.Path.{◌≡◌}
use mathlib.Core.Logic.{◌≢◌}
use native.Mathlib.Omega.{arith}
use esp_uffs.Prelude.Tests.{◌==◌, if◌then◌else◌}

unfoldable pub write : (ℕ → ℕ) → ℕ → ℕ → ℕ → ℕ
write f a v = λ x. if x == a then v else f x

pub write_self : (f : ℕ → ℕ) (a v : ℕ) → write f a v a ≡ v
unfolding write
write_self f a v = ground arith

pub write_ne : (f : ℕ → ℕ) (a v x : ℕ) → x ≢ a → write f a v x ≡ f x
unfolding write
write_ne f a v x h = ground arith
