-- ===== src/Crc/Serial.antt =====
-- One shift of the bit-serial CRC with the reflected polynomial 0x8408, and its algebra.
use esp_uffs.Prelude.{
  ℕ, zero, suc, ◌+◌, ◌*◌, ◌/◌, ◌%◌, ◌^◌, ◌<◌, bit_xor, ◌≡◌, refl, ◌∙◌, ap, ap₂, arith,
}
use native.Mathlib.Nat.{pow-suc}
use esp_uffs.Bits.{
  xor_self, xor-zero, xor-lt-65536, half-xor, parity-xor, xor_exchange, eq_of_xor-eq-zero,
}

-- Feed back the polynomial when a 1 is shifted out.
unfoldable pub feed : ℕ → ℕ
feed zero = 0
feed (suc b) = 0x8408

unfoldable pub shift : ℕ → ℕ
shift w = bit_xor (w / 2) (feed (w % 2))

unfoldable pub shifts : ℕ → ℕ → ℕ
shifts zero w = w
shifts (suc n) w = shifts n (shift w)

feed-xor : (a b : ℕ) → a < 2 → b < 2 → feed ((a + b) % 2) ≡ bit_xor (feed a) (feed b)
unfolding feed
feed-xor zero zero p q = refl
feed-xor zero (suc zero) p q = refl
feed-xor (suc zero) zero p q = refl
feed-xor (suc zero) (suc zero) p q = refl
feed-xor zero (suc (suc b)) p q = absurd (omega arith)
feed-xor (suc zero) (suc (suc b)) p q = absurd (omega arith)
feed-xor (suc (suc a)) b p q = absurd (omega arith)

pub shift-xor : (a b : ℕ) → shift (bit_xor a b) ≡ bit_xor (shift a) (shift b)
unfolding shift
shift-xor a b =
    let fed : feed (bit_xor a b % 2) ≡ bit_xor (feed (a % 2)) (feed (b % 2)) =
      ap feed (omega (arith, parity-xor a b))
      ∙ feed-xor (a % 2) (b % 2) (omega arith) (omega arith) in
    ap₂ bit_xor (half-xor a b) fed ∙ xor_exchange (a / 2) (b / 2) (feed (a % 2)) (feed (b % 2))

feed-lt : (b : ℕ) → feed b < 65536
unfolding feed
feed-lt zero = omega arith
feed-lt (suc b) = omega arith

pub shift-lt : (w : ℕ) → w < 65536 → shift w < 65536
unfolding shift
shift-lt w h = xor-lt-65536 (w / 2) (feed (w % 2)) (omega arith) (feed-lt (w % 2))

-- A 1 shifted out sets the top digit, so only 0 is shifted to 0.
shift-eq-zero : (w : ℕ) → w < 65536 → shift w ≡ 0 → w ≡ 0
unfolding shift feed
shift-eq-zero w h e = ground (arith, eq_of_xor-eq-zero (w / 2) (feed (w % 2)) e)

shift_inj : (a b : ℕ) → a < 65536 → b < 65536 → shift a ≡ shift b → a ≡ b
shift_inj a b p q e = eq_of_xor-eq-zero a b (
    shift-eq-zero (bit_xor a b) (xor-lt-65536 a b p q)
      (shift-xor a b ∙ ap (λ t. bit_xor t (shift b)) e ∙ xor_self (shift b)))

pub shifts-xor : (n a b : ℕ) → shifts n (bit_xor a b) ≡ bit_xor (shifts n a) (shifts n b)
unfolding shifts
shifts-xor zero a b = refl
shifts-xor (suc n) a b = ap (shifts n) (shift-xor a b) ∙ shifts-xor n (shift a) (shift b)

pub shifts-lt : (n w : ℕ) → w < 65536 → shifts n w < 65536
unfolding shifts
shifts-lt zero w h = h
shifts-lt (suc n) w h = shifts-lt n (shift w) (shift-lt w h)

pub shifts_inj : (n a b : ℕ) → a < 65536 → b < 65536 → shifts n a ≡ shifts n b → a ≡ b
unfolding shifts
shifts_inj zero a b p q e = e
shifts_inj (suc n) a b p q e =
    shift_inj a b p q (shifts_inj n (shift a) (shift b) (shift-lt a p) (shift-lt b q) e)

shift-double : (w : ℕ) → shift (w * 2) ≡ w
unfolding shift feed
shift-double w = ground (arith, xor-zero w)

-- Low zeros are shifted out unchanged.
pub shifts-high : (n w : ℕ) → shifts n (w * 2 ^ n) ≡ w
unfolding shifts
shifts-high zero w = omega arith
shifts-high (suc n) w =
    ap (shifts n)
      (ap shift (omega (arith, ap (λ (t : ℕ). w * t) (pow-suc 2 n))) ∙ shift-double (w * 2 ^ n))
    ∙ shifts-high n w
