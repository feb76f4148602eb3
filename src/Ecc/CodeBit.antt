-- ===== src/Ecc/CodeBit.antt =====
-- `uffs_EccCorrectChunk256` of src/uffs_ecc.c after an error in the stored code.
use esp_uffs.Prelude.{
  ℕ, ◌+◌, ◌*◌, ◌^◌, ◌<◌, bit_or, bit_xor, ◌≡◌, refl, ◌∙◌, ap, List, [], ◌∷◌, Bool, true, not, ◌&&◌,
  arith, length, set, get_or, replicate, ltb, ltb→lt, zero, suc, all_below, all_below_sound, ◌==◌,
}
use esp_uffs.Prelude.Words.{u8, lnot8, AreBytes}
use esp_uffs.Bits.{xor_assoc, xor_self, xor_comm, xor-zero}
use esp_uffs.Ecc.{
  line_byte, col_byte, ecc_make_chunk256, fixed, flip, correct_delta, is_data_error, bits,
  ecc_correct_chunk256,
}
use esp_uffs.Ecc.Linear.{flip-byte}
use esp_uffs.Ecc.Tables.{bits_tbl}

abbrev zeros : List ℕ
zeros = 0 ∷ 0 ∷ 0 ∷ []

-- The differences of one wrong bit in the stored code itself.
abbrev is_code_bit : ℕ → ℕ → ℕ → Bool
is_code_bit d0 d1 d2 =
    not (bit_or (bit_or d0 d1) d2 == 0)
    && not (is_data_error d0 d1 d2)
    && (bits d0 + bits d1 + bits d2 == 1)

code_bit_check :
    all_below 3 (λ e. all_below 8 (λ k.
      is_code_bit
        (get_or (set zeros e (2 ^ k)) 0 0)
        (get_or (set zeros e (2 ^ k)) 1 0)
        (get_or (set zeros e (2 ^ k)) 2 0)))
    ≡ true
unfolding all_below bits bits_tbl is_data_error
code_bit_check = refl

correct_delta-code_bit :
    (ys : List ℕ) (top d0 d1 d2 : ℕ)
    → is_code_bit d0 d1 d2 ≡ true
    → correct_delta ys top d0 d1 d2 ≡ (fixed 1, ys)
unfolding correct_delta
correct_delta-code_bit ys top d0 d1 d2 h = ground arith

-- What the differences are when bit `k` of code byte `e` is wrong.
zero-differences :
    (c : List ℕ) (i : ℕ)
    → bit_xor (get_or c i 0) (get_or c i 0) ≡ get_or (replicate (length c) 0) i 0
zero-differences [] i = refl
zero-differences (x ∷ c) zero = xor_self x
zero-differences (x ∷ c) (suc i) = zero-differences c i

byte-difference : (x k : ℕ) → x < 256 → k < 8 → bit_xor (u8 (bit_xor x (1 * 2 ^ k))) x ≡ 2 ^ k
byte-difference x k hx hk =
    ap (λ y. bit_xor y x) (flip-byte x k hx hk ∙ xor_comm x (2 ^ k))
    ∙ xor_assoc (2 ^ k) x x
    ∙ ap (bit_xor (2 ^ k)) (xor_self x)
    ∙ xor-zero (2 ^ k)

flip-differences :
    (code : List ℕ) (e k i : ℕ)
    → AreBytes code
    → k < 8
    → bit_xor (get_or (flip code e k) i 0) (get_or code i 0)
      ≡ get_or (set (replicate (length code) 0) e (2 ^ k)) i 0
unfolding flip
flip-differences [] e k i h hk = refl
flip-differences (x ∷ c) zero k zero h hk = byte-difference x k h.0 hk
flip-differences (x ∷ c) zero k (suc i) h hk = zero-differences c i
flip-differences (x ∷ c) (suc e) k zero h hk = xor_self x
flip-differences (x ∷ c) (suc e) k (suc i) h hk = flip-differences c e k i h.1 hk

lnot8-lt : (x : ℕ) → lnot8 x < 256
lnot8-lt x = omega arith

or_three_check : all_below 256 (λ x. ltb (bit_or x 3) 256) ≡ true
unfolding all_below
or_three_check = refl

col_byte-lt : (c : ℕ) → col_byte c < 256
unfolding col_byte
col_byte-lt c = ltb→lt _ _ (all_below_sound 256 _ (lnot8 c) or_three_check (lnot8-lt c))

code-AreBytes : (xs : List ℕ) → AreBytes (ecc_make_chunk256 xs)
unfolding ecc_make_chunk256 line_byte
code-AreBytes xs = (lnot8-lt _, (lnot8-lt _, (col_byte-lt _, tt)))

-- One wrong bit in a stored code byte of a chunk is reported as one corrected error, and the data
-- are left alone.
pub ecc_correct_chunk256-flip_code :
    (xs : List ℕ) (e k top : ℕ)
    → e < 3
    → k < 8
    → ecc_correct_chunk256 xs (flip (ecc_make_chunk256 xs) e k) (ecc_make_chunk256 xs) top
      ≡ (fixed 1, xs)
unfolding ecc_correct_chunk256 ecc_make_chunk256
ecc_correct_chunk256-flip_code xs e k top he hk =
    let code = ecc_make_chunk256 xs in
    let d = flip-differences code e k in
    let h = code-AreBytes xs in
    (λ t. correct_delta xs top (d 0 h hk t) (d 1 h hk t) (d 2 h hk t))
    ∙ correct_delta-code_bit xs top _ _ _
        (all_below_sound 8 _ k (all_below_sound 3 _ e code_bit_check he) hk)
