-- ===== src/Bits.antt =====
-- Laws of the C operators `^`, `&` and `|` on unsigned values of every width, from one equation
-- for the lowest binary digit.
mod Step
use Step.{digits_settled}
use Prim.Native.Nat.{bitwise, differ, bit_xor-bitwise, bit_and-bitwise}
use esp_uffs.Prelude.{
  ℕ, zero, suc, ◌+◌, ◌*◌, ◌/◌, ◌%◌, ◌^◌, ◌≤◌, ◌<◌, bit_and, bit_xor, min, ◌-◌, ◌≡◌, refl, sym, ◌∙◌,
  ap, ap₂, arith,
}
use native.Mathlib.Nat.{
  le_refl, pow-suc, pow-succ', one-le-pow, div-div-eq-div-mul, div-add-mod', add-mul-mod_self_right,
  mod-eq_of_lt, mod-lt, div-one, mod-one, mul-div_cancel, div-eq_of_lt, mul-mod_left,
}

differ_parity : (x y : ℕ) → x < 2 → y < 2 → differ x y ≡ (x + y) % 2
differ_parity zero y p q = omega arith
differ_parity (suc zero) zero p q = refl
differ_parity (suc zero) (suc zero) p q = refl
differ_parity (suc zero) (suc (suc y)) p q = absurd (omega arith)
differ_parity (suc (suc x)) y p q = absurd (omega arith)

xor_suc :
    (a b : ℕ)
    → bitwise (λ y. y) differ (suc a) b
      ≡ bitwise (λ y. y) differ (suc a / 2) (b / 2) * 2 + differ (suc a % 2) (b % 2)
xor_suc a b = omega (arith, digits_settled (λ y. y) differ a (suc a / 2) (b / 2) (omega arith))

-- The lowest digit of an exclusive or is the parity of the sum.
pub bit_xor_step : (a b : ℕ) → bit_xor a b ≡ bit_xor (a / 2) (b / 2) * 2 + (a + b) % 2
bit_xor_step zero b = simp bit_xor-bitwise (omega arith)
bit_xor_step (suc a) b =
    simp bit_xor-bitwise
      (omega (arith, xor_suc a b, differ_parity (suc a % 2) (b % 2) (omega arith) (omega arith)))

div-double : (a k : ℕ) → a / 2 ^ suc k ≡ a / 2 / 2 ^ k
div-double a k = ap (λ t. a / t) (pow-succ' 2 k) ∙ sym (div-div-eq-div-mul a 2 (2 ^ k))

mod-double : (a k : ℕ) → a % 2 ^ suc k ≡ a / 2 % 2 ^ k * 2 + a % 2
mod-double a k =
    let t = 2 ^ k in
    let split : a ≡ (a / 2 % t * 2 + a % 2) + a / 2 / t * (t * 2) =
      omega (arith, div-add-mod' (a / 2) t) in
    ap (λ m. a % m) (pow-suc 2 k)
    ∙ ap (λ m. m % (t * 2)) split
    ∙ add-mul-mod_self_right (a / 2 % t * 2 + a % 2) (a / 2 / t) (t * 2)
    ∙ mod-eq_of_lt (omega (arith, mod-lt (a / 2) (one-le-pow k 2 (omega arith))))

half_mod : (a k : ℕ) → a % 2 ^ suc k / 2 ≡ a / 2 % 2 ^ k
half_mod a k = omega (arith, mod-double a k)

half_mask : (k : ℕ) → (2 ^ suc k - 1) / 2 ≡ 2 ^ k - 1
half_mask k = omega (arith, pow-suc 2 k, one-le-pow k 2)

pub half-xor : (a b : ℕ) → bit_xor a b / 2 ≡ bit_xor (a / 2) (b / 2)
half-xor a b = omega (arith, bit_xor_step a b)

pub parity-xor : (a b : ℕ) → bit_xor a b % 2 ≡ (a + b) % 2
parity-xor a b = omega (arith, bit_xor_step a b)

-- Induction on a bound of the operands, halved in each step.
xor_self_upto : (n a : ℕ) → a ≤ n → bit_xor a a ≡ 0
xor_self_upto zero zero h = refl
xor_self_upto zero (suc a) h = absurd (omega arith)
xor_self_upto (suc n) a h = omega (arith, bit_xor_step a a, xor_self_upto n (a / 2) (omega arith))

xor_comm_upto : (n a b : ℕ) → a ≤ n → b ≤ n → bit_xor a b ≡ bit_xor b a
xor_comm_upto zero zero zero p q = refl
xor_comm_upto zero zero (suc b) p q = absurd (omega arith)
xor_comm_upto zero (suc a) b p q = absurd (omega arith)
xor_comm_upto (suc n) a b p q = omega (
  arith,
  bit_xor_step a b,
  bit_xor_step b a,
  xor_comm_upto n (a / 2) (b / 2) (omega arith) (omega arith),
)

xor_assoc_upto :
    (n a b c : ℕ) → a ≤ n → b ≤ n → c ≤ n → bit_xor (bit_xor a b) c ≡ bit_xor a (bit_xor b c)
xor_assoc_upto zero zero zero zero p q r = refl
xor_assoc_upto zero zero zero (suc c) p q r = absurd (omega arith)
xor_assoc_upto zero zero (suc b) c p q r = absurd (omega arith)
xor_assoc_upto zero (suc a) b c p q r = absurd (omega arith)
xor_assoc_upto (suc n) a b c p q r = ground (
  arith,
  bit_xor_step (bit_xor a b) c,
  bit_xor_step a (bit_xor b c),
  half-xor a b,
  half-xor b c,
  parity-xor a b,
  parity-xor b c,
  xor_assoc_upto n (a / 2) (b / 2) (c / 2),
)

xor-lt_upto : (k a b : ℕ) → a < 2 ^ k → b < 2 ^ k → bit_xor a b < 2 ^ k
xor-lt_upto zero zero zero p q = omega arith
xor-lt_upto zero zero (suc b) p q = absurd (omega arith)
xor-lt_upto zero (suc a) b p q = absurd (omega arith)
xor-lt_upto (suc k) a b p q = omega (
  arith,
  pow-suc 2 k,
  bit_xor_step a b,
  xor-lt_upto k (a / 2) (b / 2) (omega (arith, pow-suc 2 k)) (omega (arith, pow-suc 2 k)),
)

pub xor_self : (a : ℕ) → bit_xor a a ≡ 0
xor_self a = xor_self_upto a a (le_refl a)

pub zero-xor : (a : ℕ) → bit_xor 0 a ≡ a
zero-xor a = bit_xor-bitwise 0 a

pub xor_comm : (a b : ℕ) → bit_xor a b ≡ bit_xor b a
xor_comm a b = xor_comm_upto (a + b) a b (omega arith) (omega arith)

pub xor-zero : (a : ℕ) → bit_xor a 0 ≡ a
xor-zero a = xor_comm a 0 ∙ zero-xor a

pub xor_assoc : (a b c : ℕ) → bit_xor (bit_xor a b) c ≡ bit_xor a (bit_xor b c)
xor_assoc a b c = xor_assoc_upto (a + b + c) a b c (omega arith) (omega arith) (omega arith)

pub xor_left_comm : (a b c : ℕ) → bit_xor a (bit_xor b c) ≡ bit_xor b (bit_xor a c)
xor_left_comm a b c = sym (xor_assoc a b c) ∙ ap (λ t. bit_xor t c) (xor_comm a b) ∙ xor_assoc b a c

pub xor_cancel_left : (a b : ℕ) → bit_xor a (bit_xor a b) ≡ b
xor_cancel_left a b = sym (xor_assoc a a b) ∙ ap (λ t. bit_xor t b) (xor_self a) ∙ zero-xor b

pub xor-lt-pow : (k a b : ℕ) → a < 2 ^ k → b < 2 ^ k → bit_xor a b < 2 ^ k
xor-lt-pow = xor-lt_upto

pub xor-lt-256 : (a b : ℕ) → a < 256 → b < 256 → bit_xor a b < 256
xor-lt-256 = xor-lt_upto 8

pub xor-lt-65536 : (a b : ℕ) → a < 65536 → b < 65536 → bit_xor a b < 65536
xor-lt-65536 = xor-lt_upto 16

pub xor-shift : (k a b : ℕ) → bit_xor a b / 2 ^ k ≡ bit_xor (a / 2 ^ k) (b / 2 ^ k)
xor-shift zero a b = div-one (bit_xor a b) ∙ sym (ap₂ bit_xor (div-one a) (div-one b))
xor-shift (suc k) a b =
    div-double (bit_xor a b) k
    ∙ ap (λ t. t / 2 ^ k) (half-xor a b)
    ∙ xor-shift k (a / 2) (b / 2)
    ∙ sym (ap₂ bit_xor (div-double a k) (div-double b k))

-- Exclusive or works on the low and the high digits apart.
pub xor-mod : (k a b : ℕ) → bit_xor a b % 2 ^ k ≡ bit_xor (a % 2 ^ k) (b % 2 ^ k)
xor-mod zero a b = mod-one (bit_xor a b) ∙ sym (ap₂ bit_xor (mod-one a) (mod-one b))
xor-mod (suc k) a b = omega (
  arith,
  mod-double (bit_xor a b) k,
  bit_xor_step (a % 2 ^ suc k) (b % 2 ^ suc k),
  mod-double a k,
  mod-double b k,
  parity-xor a b,
  ap (λ (t : ℕ). t % 2 ^ k) (half-xor a b),
  xor-mod k (a / 2) (b / 2),
  ap₂ bit_xor (half_mod a k) (half_mod b k),
)

pub ruleset xor_laws = (xor_assoc, xor_self, zero-xor, xor-zero, xor_cancel_left)

-- The lowest digit of a conjunction is the smaller one.
pub bit_and_low : (x y : ℕ) → min (x % 2) (y % 2) + bit_and (x / 2) (y / 2) * 2 ≡ bit_and x y
bit_and_low zero y = simp bit_and-bitwise (omega arith)
bit_and_low (suc x) y =
    let spare = digits_settled (λ d. 0) min x (suc x / 2) (y / 2) (omega arith) in
    simp bit_and-bitwise (omega (spare, arith))

and-zero_upto : (n a : ℕ) → a ≤ n → bit_and a 0 ≡ 0
and-zero_upto zero zero h = refl
and-zero_upto zero (suc a) h = absurd (omega arith)
and-zero_upto (suc n) a h = omega (arith, bit_and_low a 0, and-zero_upto n (a / 2) (omega arith))

-- A mask of `k` low bits is the remainder by `2 ^ k`.
pub and-mask : (k a : ℕ) → bit_and a (2 ^ k - 1) ≡ a % 2 ^ k
and-mask zero a = omega (arith, and-zero_upto a a (le_refl a))
and-mask (suc k) a = omega (
  arith,
  bit_and_low a (2 ^ suc k - 1),
  pow-suc 2 k,
  one-le-pow k 2,
  ap (bit_and (a / 2)) (half_mask k),
  and-mask k (a / 2),
  mod-double a k,
)

pub xor_exchange :
    (a b c d : ℕ) → bit_xor (bit_xor a b) (bit_xor c d) ≡ bit_xor (bit_xor a c) (bit_xor b d)
xor_exchange a b c d =
    xor_assoc a b (bit_xor c d)
    ∙ ap (bit_xor a) (xor_left_comm b c d)
    ∙ sym (xor_assoc a c (bit_xor b d))

pub eq_of_xor-eq-zero : (a b : ℕ) → bit_xor a b ≡ 0 → a ≡ b
eq_of_xor-eq-zero a b e = sym (xor-zero a) ∙ ap (bit_xor a) (sym e) ∙ xor_cancel_left a b

-- Numbers with no common digit are joined by adding them.
pub xor-fields : (k q r : ℕ) → r < 2 ^ k → bit_xor (q * 2 ^ k) r ≡ q * 2 ^ k + r
xor-fields k q r fits =
    let m = 2 ^ k in
    let w = bit_xor (q * m) r in
    let pos : 0 < m = one-le-pow k 2 (omega arith) in
    let high : w / m ≡ q =
      xor-shift k (q * m) r ∙ ap₂ bit_xor (mul-div_cancel q pos) (div-eq_of_lt fits) ∙ xor-zero q in
    let low : w % m ≡ r =
      xor-mod k (q * m) r ∙ ap₂ bit_xor (mul-mod_left q m) (mod-eq_of_lt fits) ∙ zero-xor r in
    omega (arith, div-add-mod' w m, ap (λ (t : ℕ). t * m) high, low)
