-- ===== src/Ecc/Eight.antt =====
-- `uffs_EccMake8` and `uffs_EccCorrect8` of src/uffs_ecc.c together, on at most eight bytes.
use esp_uffs.Prelude.{
  ℕ, zero, suc, ◌+◌, ◌-◌, ◌/◌, ◌%◌, ◌^◌, ◌<◌, ◌≤◌, bit_and, bit_or, bit_xor, ◌≡◌, ◌≢◌, refl, ◌∙◌,
  ap, ap₂, ◌⊎◌, List, [], ◌∷◌, true, not, ◌&&◌, ◌||◌, arith, length, take, all_below,
  all_below_sound, ◌==◌,
}
use esp_uffs.Prelude.Words.{u8, lnot8, AreBytes, ◌>>>◌}
use esp_uffs.Bits.{
  xor_self, zero-xor, xor_exchange, xor-lt-256, xor-lt-pow, xor-mod, xor-shift, and-mask,
  eq_of_xor-eq-zero, xor_cancel_left,
}
use esp_uffs.Ecc.Tables.{line_parity_tbl, line_parity_prime_tbl, column_parity_tbl, bits_tbl}
use esp_uffs.Ecc.{
  line_word, ecc_make8, is_data_error8, error_byte8, correct_delta8, ecc_correct8, pick, bits,
  fixed, failed, flip,
}
use esp_uffs.Ecc.Linear.{col, col-lt, pow-lt-256, length-flip, flip-flip}
use esp_uffs.Ecc.Delta.{pair, pair-xor}
use esp_uffs.Ecc.Change.{of, of-IsSmall, moved, of-flip, of-flip-flip}

-- The 12 bits that parities with the low halves `l` and `p` and the columns `c` give.
abbrev code8 : ℕ → ℕ → ℕ → ℕ
code8 l p c = bit_and (bit_or (line_word l p) (bit_and (lnot8 c >>> 2) 0x3f)) 0xfff

code8_check :
    all_below 16 (λ l. all_below 16 (λ p. all_below 256 (λ c.
      (bit_and (code8 l p c) 0xfff >>> 6 == bit_xor 63 (pair l p % 64))
      && (bit_and (bit_and (code8 l p c) 0xfff) 0x3f == bit_xor 63 (c / 4)))))
    ≡ true
unfolding all_below line_word pair line_parity_tbl line_parity_prime_tbl
code8_check = refl

code8-fields :
    (l p c : ℕ)
    → l < 16
    → p < 16
    → c < 256
    → (bit_and (code8 l p c) 0xfff >>> 6 ≡ bit_xor 63 (pair l p % 64))
      × (bit_and (bit_and (code8 l p c) 0xfff) 0x3f ≡ bit_xor 63 (c / 4))
code8-fields l p c hl hp hc =
    let both =
      all_below_sound 256 _ c (all_below_sound 16 _ p (all_below_sound 16 _ l code8_check hl) hp)
        hc in
    ground arith

-- With the same complement on both sides, the difference is the change itself.
field_difference : (w x m : ℕ) → bit_xor (bit_xor w x) (bit_xor w (bit_xor x m)) ≡ m
field_difference w x m =
    xor_exchange w x w (bit_xor x m)
    ∙ ap (λ t. bit_xor t (bit_xor x (bit_xor x m))) (xor_self w)
    ∙ zero-xor _
    ∙ xor_cancel_left x m

code8-delta :
    (l p c u v m : ℕ)
    → l < 16
    → p < 16
    → c < 256
    → u < 16
    → v < 16
    → m < 256
    → let r = bit_and (code8 l p c) 0xfff in
      let t = bit_and (code8 (bit_xor l u) (bit_xor p v) (bit_xor c m)) 0xfff in
      (bit_xor (r >>> 6) (t >>> 6) ≡ pair u v % 64)
      × (bit_xor (bit_and r 0x3f) (bit_and t 0x3f) ≡ m / 4)
code8-delta l p c u v m hl hp hc hu hv hm =
    let r = code8-fields l p c hl hp hc in
    let t =
      code8-fields (bit_xor l u) (bit_xor p v) (bit_xor c m) (xor-lt-pow 4 l u hl hu)
        (xor-lt-pow 4 p v hp hv) (xor-lt-256 c m hc hm) in
    (
      ap₂ bit_xor r.0 (
            t.0
            ∙ ap (λ (q : ℕ). bit_xor 63 (q % 64)) (pair-xor l p u v hl hp hu hv)
            ∙ ap (bit_xor 63) (xor-mod 6 (pair l p) (pair u v)))
          ∙ field_difference 63 (pair l p % 64) (pair u v % 64),
      ap₂ bit_xor r.1 (t.1 ∙ ap (bit_xor 63) (xor-shift 2 c m))
          ∙ field_difference 63 (c / 4) (m / 4),
    )

take-all : (n : ℕ) (xs : List ℕ) → length xs ≤ n → take n xs ≡ xs
take-all zero [] h = refl
take-all zero (x ∷ xs) h = absurd (omega arith)
take-all (suc n) [] h = refl
take-all (suc n) (x ∷ xs) h = ap (◌∷◌ x) (take-all n xs (omega arith))

ecc_make8-code8 :
    (xs : List ℕ)
    → length xs ≤ 8
    → ecc_make8 xs ≡ code8 ((of xs).line % 16) ((of xs).prime % 16) (of xs).col
unfolding ecc_make8
ecc_make8-code8 xs h =
    rw (take-all 8 xs h)
      (ap₂ (λ l p. code8 l p (of xs).col) (and-mask 4 (of xs).line) (and-mask 4 (of xs).prime))

-- With the code of `xs` and the parities of `ys`, the correction sees the change alone.
correct8-moved :
    (xs ys : List ℕ) (top m u v : ℕ)
    → AreBytes xs
    → length xs ≤ 8
    → length ys ≤ 8
    → m < 256
    → of ys ≡ moved (of xs) m u v
    → ecc_correct8 ys (ecc_make8 xs) (ecc_make8 ys) top
      ≡ correct_delta8 ys top (u8 (pair (u % 16) (v % 16) % 64)) (u8 (m / 4))
unfolding ecc_correct8
correct8-moved xs ys top m u v h lx ly hm e =
    let p = of xs in
    let d =
      code8-delta (p.line % 16) (p.prime % 16) p.col (u % 16) (v % 16) m (omega arith) (omega arith)
        (of-IsSmall xs h).col_lt (omega arith) (omega arith) hm in
    let l = xor-mod 4 p.line u in
    let r = xor-mod 4 p.prime v in
    rw (ecc_make8-code8 xs lx, ecc_make8-code8 ys ly, e, l, r)
      (λ t. correct_delta8 ys top (u8 (d.0 t)) (u8 (d.1 t)))

one8_check :
    all_below 8 (λ j. all_below 8 (λ k.
      let d0 = u8 (pair j (15 - j) % 64) in
      let d1 = u8 (col (2 ^ k) / 4) in
      not (bit_or d0 d1 == 0)
      && is_data_error8 d0 d1
      && (error_byte8 d0 == j)
      && (error_byte8 d1 == k)))
    ≡ true
unfolding all_below pair line_parity_tbl line_parity_prime_tbl column_parity_tbl is_data_error8
    error_byte8 pick
one8_check = refl

two8_check :
    all_below 8 (λ u. all_below 8 (λ k. all_below 8 (λ n.
      let d0 = u8 (pair u u % 64) in
      let d1 = u8 (bit_xor (col (2 ^ k)) (col (2 ^ n)) / 4) in
      ((u == 0) && (k == n))
      || (not (bit_or d0 d1 == 0) && not (is_data_error8 d0 d1) && not (bits d0 + bits d1 == 1)))))
    ≡ true
unfolding all_below pair line_parity_tbl line_parity_prime_tbl column_parity_tbl is_data_error8 bits
    bits_tbl
two8_check = refl

correct_delta8-one :
    (ys : List ℕ) (top j k d0 d1 : ℕ)
    → (not (bit_or d0 d1 == 0)
        && is_data_error8 d0 d1
        && (error_byte8 d0 == j)
        && (error_byte8 d1 == k))
      ≡ true
    → j < top
    → top < 256
    → k < 8
    → correct_delta8 ys top d0 d1 ≡ (fixed 1, flip ys j k)
unfolding correct_delta8
correct_delta8-one ys top j k d0 d1 h hj ht hk = ground arith

correct_delta8-two :
    (ys : List ℕ) (top d0 d1 : ℕ)
    → (not (bit_or d0 d1 == 0) && not (is_data_error8 d0 d1) && not (bits d0 + bits d1 == 1)) ≡ true
    → correct_delta8 ys top d0 d1 ≡ (failed, ys)
unfolding correct_delta8
correct_delta8-two ys top d0 d1 h = ground arith

-- In at most eight bytes, one flipped bit is repaired by uffs_EccCorrect8 from the 12-bit code
-- made before, and reported as one corrected error.
pub ecc_correct8-flip :
    (xs : List ℕ) (j k : ℕ)
    → AreBytes xs
    → length xs ≤ 8
    → j < length xs
    → k < 8
    → ecc_correct8 (flip xs j k) (ecc_make8 xs) (ecc_make8 (flip xs j k)) (length xs)
      ≡ (fixed 1, xs)
ecc_correct8-flip xs j k h fits hj hk =
    let ys = flip xs j k in
    let low : lnot8 j % 16 ≡ 15 - j = omega arith in
    let same : j % 16 ≡ j = omega arith in
    let all = all_below_sound 8 _ k (all_below_sound 8 _ j one8_check (omega arith)) hk in
    correct8-moved xs ys (length xs) (col (2 ^ k)) j (lnot8 j) h fits
      (omega (arith, length-flip xs j k)) (col-lt _ (pow-lt-256 k hk))
      (of-flip xs j k h (omega arith) hj hk)
    ∙ ap₂ (λ a b. correct_delta8 ys (length xs) (u8 (pair a b % 64)) (u8 (col (2 ^ k) / 4))) same
        low
    ∙ correct_delta8-one ys (length xs) j k _ _ all hj (omega arith) hk
    ∙ ap (λ zs. (fixed 1, zs)) (flip-flip xs j k h hk)

-- In at most eight bytes, two different flipped bits make uffs_EccCorrect8 fail and change
-- nothing.
pub ecc_correct8-flip-flip :
    (xs : List ℕ) (i k j n top : ℕ)
    → AreBytes xs
    → length xs ≤ 8
    → i < length xs
    → k < 8
    → j < length xs
    → n < 8
    → (i ≢ j) ⊎ (k ≢ n)
    → let ys = flip (flip xs i k) j n in
      ecc_correct8 ys (ecc_make8 xs) (ecc_make8 ys) top ≡ (failed, ys)
ecc_correct8-flip-flip xs i k j n top h fits hi hk hj hn differ =
    let u = bit_xor i j in
    let hu : u < 8 = xor-lt-pow 3 i j (omega arith) (omega arith) in
    let ys = flip (flip xs i k) j n in
    let same : u % 16 ≡ u = omega arith in
    let all =
      all_below_sound 8 _ n (all_below_sound 8 _ k (all_below_sound 8 _ u two8_check hu) hk) hn in
    let zero_u = eq_of_xor-eq-zero i j in
    correct8-moved xs ys top (bit_xor (col (2 ^ k)) (col (2 ^ n))) u u h fits
      (omega (arith, length-flip (flip xs i k) j n, length-flip xs i k))
      (xor-lt-256 _ _ (col-lt _ (pow-lt-256 k hk)) (col-lt _ (pow-lt-256 n hn)))
      (of-flip-flip xs i k j n h (omega arith) hi hk hj hn)
    ∙ ap
        (λ a.
          correct_delta8 ys top (u8 (pair a a % 64)) (u8 (bit_xor (col (2 ^ k)) (col (2 ^ n)) / 4)))
        same
    ∙ correct_delta8-two ys top _ _ (ground arith)
