-- ===== src/Ecc/Change.antt =====
-- `uffs_EccMakeChunk256` and `uffs_EccCorrectChunk256` of src/uffs_ecc.c together: how the three
-- differences depend on what was flipped.
use esp_uffs.Prelude.{
  ℕ, ◌-◌, ◌*◌, ◌/◌, ◌%◌, ◌^◌, ◌<◌, ◌≤◌, bit_and, bit_xor, ◌≡◌, refl, ◌∙◌, ap, ap₂, List, true, ◌&&◌,
  arith, length, all_below, all_below_sound, ◌==◌,
}
use esp_uffs.Prelude.Words.{lnot8, AreBytes}
use esp_uffs.Bits.{xor_assoc, zero-xor, xor_exchange, xor-shift, xor-mod, and-mask}
use esp_uffs.Ecc.{
  Parity, parity_start, parity_loop, line_byte, ecc_make_chunk256, flip, correct_delta,
  ecc_correct_chunk256,
}
use esp_uffs.Ecc.Linear.{
  col, mark, IsSmall, parity_loop-IsSmall, parity_loop-flip, length-flip, flip-AreBytes,
}
use native.Mathlib.Nat.{zero-add}
use esp_uffs.Ecc.Delta.{pair, line_byte-delta, col_byte-delta}

abbrev pub of : List ℕ → Parity
of xs = parity_loop xs 0 parity_start

start-IsSmall : IsSmall parity_start
start-IsSmall = record { col_lt = omega arith; line_lt = omega arith; prime_lt = omega arith }

pub of-IsSmall : (xs : List ℕ) → AreBytes xs → IsSmall (of xs)
of-IsSmall xs h = parity_loop-IsSmall xs 0 parity_start start-IsSmall h

abbrev pub moved : Parity → ℕ → ℕ → ℕ → Parity
moved p m u v = record { col = bit_xor p.col m; line = bit_xor p.line u; prime = bit_xor p.prime v }

low_delta :
    (a b u v : ℕ)
    → bit_xor
        (line_byte (bit_and a 0xf) (bit_and b 0xf))
        (line_byte (bit_and (bit_xor a u) 0xf) (bit_and (bit_xor b v) 0xf))
      ≡ pair (u % 16) (v % 16)
low_delta a b u v =
    ap₂ bit_xor (ap₂ line_byte (and-mask 4 a) (and-mask 4 b)) (
      ap₂ line_byte (and-mask 4 (bit_xor a u) ∙ xor-mod 4 a u)
        (and-mask 4 (bit_xor b v) ∙ xor-mod 4 b v))
    ∙ line_byte-delta (a % 16) (b % 16) (u % 16) (v % 16) (omega arith) (omega arith) (omega arith)
        (omega arith)

high_delta :
    (a b u v : ℕ)
    → a < 256
    → b < 256
    → u < 256
    → v < 256
    → bit_xor (line_byte (a / 16) (b / 16)) (line_byte (bit_xor a u / 16) (bit_xor b v / 16))
      ≡ pair (u / 16) (v / 16)
high_delta a b u v ha hb hu hv =
    ap (bit_xor (line_byte (a / 16) (b / 16))) (ap₂ line_byte (xor-shift 4 a u) (xor-shift 4 b v))
    ∙ line_byte-delta (a / 16) (b / 16) (u / 16) (v / 16) (omega arith) (omega arith) (omega arith)
        (omega arith)

-- With the code of `xs` and the parities of `ys`, the correction sees the change alone.
pub correct-moved :
    (xs ys : List ℕ) (top m u v : ℕ)
    → IsSmall (of xs)
    → m < 256
    → u < 256
    → v < 256
    → of ys ≡ moved (of xs) m u v
    → ecc_correct_chunk256 ys (ecc_make_chunk256 xs) (ecc_make_chunk256 ys) top
      ≡ correct_delta ys top (pair (u % 16) (v % 16)) (pair (u / 16) (v / 16)) (m / 4 * 4)
unfolding ecc_correct_chunk256 ecc_make_chunk256
correct-moved xs ys top m u v small hm hu hv e =
    let low = low_delta (of xs).line (of xs).prime u v in
    let high = high_delta (of xs).line (of xs).prime u v small.line_lt small.prime_lt hu hv in
    let column = col_byte-delta (of xs).col m small.col_lt hm in
    let deltas : ecc_correct_chunk256 ys (ecc_make_chunk256 xs) (ecc_make_chunk256 ys) top
        ≡ correct_delta ys top (pair (u % 16) (v % 16)) (pair (u / 16) (v / 16)) (m / 4 * 4) =
      rw e (λ t. correct_delta ys top (low t) (high t) (column t)) in
    deltas

lnot_check :
    all_below 256 (λ j.
      (lnot8 j == bit_xor 255 j) && (lnot8 j % 16 == 15 - j % 16) && (lnot8 j / 16 == 15 - j / 16))
    ≡ true
unfolding all_below
lnot_check = refl

pub lnot8-parts :
    (j : ℕ)
    → j < 256
    → (lnot8 j ≡ bit_xor 255 j) × (lnot8 j % 16 ≡ 15 - j % 16) × (lnot8 j / 16 ≡ 15 - j / 16)
lnot8-parts j h = let all = all_below_sound 256 _ j lnot_check h in ground arith

lnot8-xor : (i j : ℕ) → i < 256 → j < 256 → bit_xor (lnot8 i) (lnot8 j) ≡ bit_xor i j
lnot8-xor i j hi hj =
    ap₂ bit_xor (lnot8-parts i hi).0 (lnot8-parts j hj).0
    ∙ xor_exchange 255 i 255 j
    ∙ zero-xor (bit_xor i j)

pub of-flip :
    (xs : List ℕ) (j k : ℕ)
    → AreBytes xs
    → length xs ≤ 256
    → j < length xs
    → k < 8
    → of (flip xs j k) ≡ moved (of xs) (col (2 ^ k)) j (lnot8 j)
unfolding mark
of-flip xs j k h fits hj hk =
    parity_loop-flip xs 0 parity_start j k start-IsSmall h (omega arith) hj hk
    ∙ ap (λ t. mark (of xs) t k) (zero-add j)

pub of-flip-flip :
    (xs : List ℕ) (i k j n : ℕ)
    → AreBytes xs
    → length xs ≤ 256
    → i < length xs
    → k < 8
    → j < length xs
    → n < 8
    → of (flip (flip xs i k) j n)
      ≡ moved (of xs) (bit_xor (col (2 ^ k)) (col (2 ^ n))) (bit_xor i j) (bit_xor i j)
of-flip-flip xs i k j n h fits hi hk hj hn =
    let l = length-flip xs i k in
    let outer = of-flip (flip xs i k) j n (flip-AreBytes xs i k h) (omega arith) (omega arith) hn in
    let inner = of-flip xs i k h fits hi hk in
    let p = of xs in
    let prime =
      xor_assoc p.prime (lnot8 i) (lnot8 j)
      ∙ ap (bit_xor p.prime) (lnot8-xor i j (omega arith) (omega arith)) in
    outer ∙ ap (λ q. moved q (col (2 ^ n)) j (lnot8 j)) inner ∙ (λ t. record {
      col = xor_assoc p.col (col (2 ^ k)) (col (2 ^ n)) t;
      line = xor_assoc p.line i j t;
      prime = prime t;
    })
