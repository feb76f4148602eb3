-- ===== src/Ecc/Chunk.antt =====
-- `uffs_EccCorrectChunk256` of src/uffs_ecc.c after no, one and two errors in the data.
use esp_uffs.Prelude.{
  ℕ, ◌+◌, ◌*◌, ◌/◌, ◌%◌, ◌^◌, ◌<◌, ◌≤◌, bit_xor, ◌≡◌, ◌≢◌, refl, ◌∙◌, ap, ap₂, ◌⊎◌, List, false,
  ◌&&◌, arith, length, get_or, ◌==◌, leb,
}
use esp_uffs.Prelude.Words.{lnot8, AreBytes}
use esp_uffs.Bits.{xor_self, xor-lt-256, eq_of_xor-eq-zero}
use esp_uffs.Ecc.{ecc_make_chunk256, fixed, failed, flip, correct_delta, ecc_correct_chunk256}
use esp_uffs.Ecc.Linear.{col, col-lt, pow-lt-256, flip-flip}
use esp_uffs.Ecc.Delta.{pair, OneBit, one_bit, TwoBits, two_bits}
use esp_uffs.Ecc.Change.{of-IsSmall, correct-moved, of-flip, of-flip-flip, lnot8-parts}

-- The code of a chunk of at most 256 bytes leaves the chunk alone and reports no error.
pub ecc_correct_chunk256-same :
    (xs : List ℕ) (top : ℕ)
    → ecc_correct_chunk256 xs (ecc_make_chunk256 xs) (ecc_make_chunk256 xs) top ≡ (fixed 0, xs)
unfolding ecc_correct_chunk256 correct_delta
ecc_correct_chunk256-same xs top =
    let code = ecc_make_chunk256 xs in
    rw (xor_self (get_or code 0 0), xor_self (get_or code 1 0), xor_self (get_or code 2 0)) refl

leb-lt : (a b : ℕ) → b < a → leb a b ≡ false
leb-lt a b h = ground arith

correct_delta-one :
    (ys : List ℕ) (top a b k d0 d1 d2 : ℕ)
    → OneBit a b k d0 d1 d2
    → b * 16 + a < top
    → correct_delta ys top d0 d1 d2 ≡ (fixed 1, flip ys (b * 16 + a) k)
unfolding correct_delta
correct_delta-one ys top a b k d0 d1 d2 h fits =
    rw (h.nonzero, h.pattern, h.byte, h.bit, leb-lt _ _ fits) refl

correct_delta-two :
    (ys : List ℕ) (top d0 d1 d2 : ℕ)
    → TwoBits d0 d1 d2
    → correct_delta ys top d0 d1 d2 ≡ (failed, ys)
unfolding correct_delta
correct_delta-two ys top d0 d1 d2 h = rw (h.nonzero, h.pattern, h.weight) refl

-- In a chunk of at most 256 bytes, one flipped data bit is reported as one corrected error, and
-- the bytes come back as they were when the code was made.
pub ecc_correct_chunk256-flip :
    (xs : List ℕ) (j k : ℕ)
    → AreBytes xs
    → length xs ≤ 256
    → j < length xs
    → k < 8
    → ecc_correct_chunk256
        (flip xs j k)
        (ecc_make_chunk256 xs)
        (ecc_make_chunk256 (flip xs j k))
        (length xs)
      ≡ (fixed 1, xs)
ecc_correct_chunk256-flip xs j k h fits hj hk =
    let hb : j < 256 = omega arith in
    let (_, low, high) = lnot8-parts j hb in
    let at : j / 16 * 16 + j % 16 ≡ j = omega arith in
    correct-moved xs (flip xs j k) (length xs) (col (2 ^ k)) j (lnot8 j) (of-IsSmall xs h)
      (col-lt _ (pow-lt-256 k hk)) hb (omega arith) (of-flip xs j k h fits hj hk)
    ∙ ap₂
        (λ a b.
          correct_delta (flip xs j k) (length xs) (pair (j % 16) a) (pair (j / 16) b)
            (col (2 ^ k) / 4 * 4))
        low high
    ∙ correct_delta-one (flip xs j k) (length xs) (j % 16) (j / 16) k _ _ _
        (one_bit (j % 16) (j / 16) k (omega arith) (omega arith) hk) (omega arith)
    ∙ ap (λ t. (fixed 1, flip (flip xs j k) t k)) at
    ∙ ap (λ ys. (fixed 1, ys)) (flip-flip xs j k h hk)

-- Bits that differ leave a difference in the parities.
distinct_parts :
    (i k j n : ℕ)
    → i < 256
    → j < 256
    → (i ≢ j) ⊎ (k ≢ n)
    → ((bit_xor i j % 16 == 0) && (bit_xor i j / 16 == 0) && (k == n)) ≡ false
distinct_parts i k j n hi hj differ = ground (arith, eq_of_xor-eq-zero i j)

-- In a chunk of at most 256 bytes, two different flipped data bits are never taken for a good
-- chunk or for one error: the correction fails and changes nothing.
pub ecc_correct_chunk256-flip-flip :
    (xs : List ℕ) (i k j n top : ℕ)
    → AreBytes xs
    → length xs ≤ 256
    → i < length xs
    → k < 8
    → j < length xs
    → n < 8
    → (i ≢ j) ⊎ (k ≢ n)
    → let ys = flip (flip xs i k) j n in
      ecc_correct_chunk256 ys (ecc_make_chunk256 xs) (ecc_make_chunk256 ys) top ≡ (failed, ys)
ecc_correct_chunk256-flip-flip xs i k j n top h fits hi hk hj hn differ =
    let u = bit_xor i j in
    let hu = xor-lt-256 i j (omega arith) (omega arith) in
    let ys = flip (flip xs i k) j n in
    correct-moved xs ys top (bit_xor (col (2 ^ k)) (col (2 ^ n))) u u (of-IsSmall xs h)
      (xor-lt-256 _ _ (col-lt _ (pow-lt-256 k hk)) (col-lt _ (pow-lt-256 n hn))) hu hu
      (of-flip-flip xs i k j n h fits hi hk hj hn)
    ∙ correct_delta-two ys top _ _ _ (
        two_bits (u % 16) (u / 16) k n (omega arith) (omega arith) hk hn
          (distinct_parts i k j n (omega arith) (omega arith) differ))
