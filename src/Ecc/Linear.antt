-- ===== src/Ecc/Linear.antt =====
-- The parity loop of src/uffs_ecc.c is linear: what flipping bits of one byte does to its result.
use esp_uffs.Prelude.{
  ℕ, zero, suc, ◌+◌, ◌*◌, ◌%◌, ◌^◌, ◌<◌, ◌≤◌, bit_xor, ◌≡◌, refl, sym, ◌∙◌, ap, List, [], ◌∷◌, true,
  arith, get_or, length, all_below, all_below_sound, ◌==◌, ==_iff, ltb, ltb→lt, length-set,
}
use esp_uffs.Prelude.Words.{u8, lnot8, AreBytes}
use esp_uffs.Bits.{
  xor_assoc, xor_comm, xor_self, xor-zero, xor-mod, parity-xor, and-mask, xor-lt-256,
}
use native.Mathlib.Nat.{one-mul, mod-eq_of_lt}
use esp_uffs.Ecc.Tables.{column_parity_tbl}
use esp_uffs.Ecc.{Parity, parity_step, parity_loop, flip}

abbrev pub col : ℕ → ℕ
col x = get_or column_parity_tbl x 0

-- What a flipped bit `k` at index `j` adds to the parities.
unfoldable pub mark : Parity → ℕ → ℕ → Parity
mark p j k = record {
  col = bit_xor p.col (col (2 ^ k));
  line = bit_xor p.line j;
  prime = bit_xor p.prime (lnot8 j);
}

col_check :
    all_below 256 (λ x. all_below 8 (λ k. col (bit_xor x (2 ^ k)) == bit_xor (col x) (col (2 ^ k))))
    ≡ true
unfolding all_below column_parity_tbl
col_check = refl

pub col-xor : (x k : ℕ) → x < 256 → k < 8 → col (bit_xor x (2 ^ k)) ≡ bit_xor (col x) (col (2 ^ k))
col-xor x k hx hk = (==_iff _ _).0 (all_below_sound 8 _ k (all_below_sound 256 _ x col_check hx) hk)

odd_check : all_below 8 (λ k. col (2 ^ k) % 2 == 1) ≡ true
unfolding all_below column_parity_tbl
odd_check = refl

col-pow-odd : (k : ℕ) → k < 8 → col (2 ^ k) % 2 ≡ 1
col-pow-odd k hk = (==_iff _ _).0 (all_below_sound 8 _ k odd_check hk)

col_small : all_below 256 (λ x. ltb (col x) 256) ≡ true
unfolding all_below column_parity_tbl
col_small = refl

pub col-lt : (x : ℕ) → x < 256 → col x < 256
col-lt x h = ltb→lt _ _ (all_below_sound 256 _ x col_small h)

pow_small : all_below 8 (λ k. ltb (2 ^ k) 256) ≡ true
unfolding all_below
pow_small = refl

pub pow-lt-256 : (k : ℕ) → k < 8 → 2 ^ k < 256
pow-lt-256 k h = ltb→lt _ _ (all_below_sound 8 _ k pow_small h)

u8-xor : (a b : ℕ) → u8 (bit_xor a b) ≡ bit_xor (u8 a) (u8 b)
u8-xor a b = xor-mod 8 a b

xor_right_comm : (a b c : ℕ) → bit_xor (bit_xor a b) c ≡ bit_xor (bit_xor a c) b
xor_right_comm a b c = xor_assoc a b c ∙ ap (bit_xor a) (xor_comm b c) ∙ sym (xor_assoc a c b)

u8-xor_right_comm :
    (a b c : ℕ) → b < 256 → u8 (bit_xor (bit_xor a b) c) ≡ bit_xor (u8 (bit_xor a c)) b
u8-xor_right_comm a b c h =
    ap u8 (xor_right_comm a b c)
    ∙ u8-xor (bit_xor a c) b
    ∙ ap (bit_xor (u8 (bit_xor a c))) (omega arith)

u8-xor_cancel : (a b : ℕ) → a < 256 → b < 256 → bit_xor (u8 (bit_xor a b)) b ≡ a
u8-xor_cancel a b ha hb =
    sym (u8-xor_right_comm a b b hb)
    ∙ ap u8 (xor_assoc a b b ∙ ap (bit_xor a) (xor_self b) ∙ xor-zero a)
    ∙ omega arith

-- A mark made before a round is still there after it.
parity_step-mark :
    (p : Parity) (j k i x : ℕ)
    → j < 256
    → parity_step (mark p j k) i x ≡ mark (parity_step p i x) j k
unfolding parity_step mark
parity_step-mark p j k i x h = ground (
  arith,
  xor_right_comm p.col (col (2 ^ k)) (col x),
  xor_right_comm p.prime (lnot8 j) (lnot8 i),
  u8-xor_right_comm p.line j i,
)

parity_loop-mark :
    (xs : List ℕ) (i : ℕ) (p : Parity) (j k : ℕ)
    → j < 256
    → parity_loop xs i (mark p j k) ≡ mark (parity_loop xs i p) j k
unfolding parity_loop
parity_loop-mark [] i p j k h = refl
parity_loop-mark (x ∷ xs) i p j k h =
    ap (parity_loop xs (i + 1)) (parity_step-mark p j k i x h)
    ∙ parity_loop-mark xs (i + 1) (parity_step p i x) j k h

parity_step-flip :
    (p : Parity) (i x k : ℕ)
    → p.line < 256
    → i < 256
    → x < 256
    → k < 8
    → parity_step p i (bit_xor x (2 ^ k)) ≡ mark (parity_step p i x) i k
unfolding parity_step mark
parity_step-flip p i x k hp hi hx hk = ground (
  arith,
  col-xor x k,
  col-pow-odd k,
  parity-xor (col x) (col (2 ^ k)),
  and-mask 1 (col x),
  and-mask 1 (bit_xor (col x) (col (2 ^ k))),
  xor_assoc p.col (col x) (col (2 ^ k)),
  u8-xor_cancel p.line i,
  u8-xor p.line i,
  xor_assoc p.prime (lnot8 i) (lnot8 i),
  xor_self (lnot8 i),
  xor-zero p.prime,
)

pub record IsSmall (p : Parity) : Type 0 where
  pub col_lt : p.col < 256
  pub line_lt : p.line < 256
  pub prime_lt : p.prime < 256

parity_step-IsSmall : (p : Parity) (i x : ℕ) → IsSmall p → x < 256 → IsSmall (parity_step p i x)
unfolding parity_step
parity_step-IsSmall p i x v h =
    ground (arith, xor-lt-256 p.col (col x), col-lt x, xor-lt-256 p.prime (lnot8 i))

pub parity_loop-IsSmall :
    (xs : List ℕ) (i : ℕ) (p : Parity) → IsSmall p → AreBytes xs → IsSmall (parity_loop xs i p)
unfolding parity_loop
parity_loop-IsSmall [] i p v h = v
parity_loop-IsSmall (x ∷ xs) i p v h =
    parity_loop-IsSmall xs (i + 1) (parity_step p i x) (parity_step-IsSmall p i x v h.0) h.1

-- A flipped bit keeps a byte a byte, and the cast to u8 drops nothing.
pub flip-byte : (x k : ℕ) → x < 256 → k < 8 → u8 (bit_xor x (1 * 2 ^ k)) ≡ bit_xor x (2 ^ k)
flip-byte x k hx hk =
    ap (λ t. u8 (bit_xor x t)) (one-mul (2 ^ k))
    ∙ mod-eq_of_lt (xor-lt-256 x (2 ^ k) hx (pow-lt-256 k hk))

pub parity_loop-flip :
    (xs : List ℕ) (i : ℕ) (p : Parity) (j k : ℕ)
    → IsSmall p
    → AreBytes xs
    → i + length xs ≤ 256
    → j < length xs
    → k < 8
    → parity_loop (flip xs j k) i p ≡ mark (parity_loop xs i p) (i + j) k
unfolding parity_loop flip
parity_loop-flip [] i p j k v h fits hj hk = absurd (omega arith)
parity_loop-flip (x ∷ xs) i p zero k v h fits hj hk =
    ap (λ y. parity_loop xs (i + 1) (parity_step p i y)) (flip-byte x k h.0 hk)
    ∙ ap (parity_loop xs (i + 1)) (parity_step-flip p i x k v.line_lt (omega arith) h.0 hk)
    ∙ parity_loop-mark xs (i + 1) (parity_step p i x) i k (omega arith)
    ∙ ap (λ t. mark (parity_loop xs (i + 1) (parity_step p i x)) t k) (omega arith)
parity_loop-flip (x ∷ xs) i p (suc j) k v h fits hj hk =
    parity_loop-flip xs (i + 1) (parity_step p i x) j k (parity_step-IsSmall p i x v h.0) h.1
      (omega arith) (omega arith) hk
    ∙ ap (λ t. mark (parity_loop xs (i + 1) (parity_step p i x)) t k) (omega arith)

pub length-flip : (xs : List ℕ) (j k : ℕ) → length (flip xs j k) ≡ length xs
unfolding flip
length-flip xs j k = length-set xs j _

pub flip-AreBytes : (xs : List ℕ) (j k : ℕ) → AreBytes xs → AreBytes (flip xs j k)
unfolding flip
flip-AreBytes [] j k h = tt
flip-AreBytes (x ∷ xs) zero k h = (omega arith, h.1)
flip-AreBytes (x ∷ xs) (suc j) k h = (h.0, flip-AreBytes xs j k h.1)

get_or-lt : (xs : List ℕ) (j : ℕ) → AreBytes xs → get_or xs j 0 < 256
get_or-lt [] j h = omega arith
get_or-lt (x ∷ xs) zero h = h.0
get_or-lt (x ∷ xs) (suc j) h = get_or-lt xs j h.1

-- Flipping a bit twice gives the bytes back.
pub flip-flip : (xs : List ℕ) (j k : ℕ) → AreBytes xs → k < 8 → flip (flip xs j k) j k ≡ xs
unfolding flip
flip-flip [] j k h hk = refl
flip-flip (x ∷ xs) zero k h hk =
    ap (λ y. y ∷ xs)
      (ap (λ t. u8 (bit_xor t (1 * 2 ^ k))) (flip-byte x k h.0 hk)
        ∙ flip-byte (bit_xor x (2 ^ k)) k (xor-lt-256 x (2 ^ k) h.0 (pow-lt-256 k hk)) hk
        ∙ xor_assoc x (2 ^ k) (2 ^ k)
        ∙ ap (bit_xor x) (xor_self (2 ^ k))
        ∙ xor-zero x)
flip-flip (x ∷ xs) (suc j) k h hk = ap (◌∷◌ x) (flip-flip xs j k h.1 hk)
