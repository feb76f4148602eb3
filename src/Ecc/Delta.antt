-- ===== src/Ecc/Delta.antt =====
-- How the code bytes of src/uffs_ecc.c change with the parities, and what the correction reads
-- off the change of one and of two bits.
use esp_uffs.Prelude.{
  ℕ, ◌+◌, ◌-◌, ◌*◌, ◌/◌, ◌^◌, ◌<◌, bit_or, bit_xor, ◌≡◌, refl, ◌∙◌, ap, ap₂, true, false, ◌&&◌,
  ◌||◌, not, arith, get_or, all_below, all_below_sound, ◌==◌, ==_iff,
}
use esp_uffs.Bits.{zero-xor, xor_exchange, xor_cancel_left, xor-lt-pow}
use esp_uffs.Ecc.Tables.{line_parity_tbl, line_parity_prime_tbl, column_parity_tbl, bits_tbl}
use esp_uffs.Ecc.{line_byte, col_byte, is_data_error, error_byte, error_bit, bits}
use esp_uffs.Ecc.Linear.{col}

abbrev lt : ℕ → ℕ
lt l = get_or line_parity_tbl l 0

abbrev lpt : ℕ → ℕ
lpt p = get_or line_parity_prime_tbl p 0

-- The digits of `u` and of `v`, interleaved.
unfoldable pub pair : ℕ → ℕ → ℕ
pair u v = bit_xor (lt u) (lpt v)

line_check : all_below 16 (λ l. all_below 16 (λ p. line_byte l p == bit_xor 255 (pair l p))) ≡ true
unfolding all_below line_byte pair line_parity_tbl line_parity_prime_tbl
line_check = refl

line_byte-pair : (l p : ℕ) → l < 16 → p < 16 → line_byte l p ≡ bit_xor 255 (pair l p)
line_byte-pair l p hl hp =
    (==_iff _ _).0 (all_below_sound 16 _ p (all_below_sound 16 _ l line_check hl) hp)

tables_check :
    all_below 16 (λ a. all_below 16 (λ b.
      (lt (bit_xor a b) == bit_xor (lt a) (lt b))
      && (lpt (bit_xor a b) == bit_xor (lpt a) (lpt b))))
    ≡ true
unfolding all_below line_parity_tbl line_parity_prime_tbl
tables_check = refl

col_byte_check :
    all_below 256
      (λ c. all_below 256 (λ m. bit_xor (col_byte c) (col_byte (bit_xor c m)) == m / 4 * 4))
    ≡ true
unfolding all_below col_byte
col_byte_check = refl

two_check :
    all_below 16 (λ a. all_below 16 (λ b. all_below 8 (λ k. all_below 8 (λ n.
      let d0 = pair a a in
      let d1 = pair b b in
      let d2 = bit_xor (col (2 ^ k)) (col (2 ^ n)) / 4 * 4 in
      ((a == 0) && (b == 0) && (k == n))
      || (not (bit_or (bit_or d0 d1) d2 == 0)
          && not (is_data_error d0 d1 d2)
          && not (bits d0 + bits d1 + bits d2 == 1))))))
    ≡ true
unfolding all_below pair line_parity_tbl line_parity_prime_tbl column_parity_tbl bits bits_tbl
    is_data_error
two_check = refl

one_check :
    all_below 16 (λ a. all_below 16 (λ b. all_below 8 (λ k.
      let d0 = pair a (15 - a) in
      let d1 = pair b (15 - b) in
      let d2 = col (2 ^ k) / 4 * 4 in
      not (bit_or (bit_or d0 d1) d2 == 0)
      && is_data_error d0 d1 d2
      && (error_byte d0 d1 == b * 16 + a)
      && (error_bit d2 == k))))
    ≡ true
unfolding all_below pair line_parity_tbl line_parity_prime_tbl column_parity_tbl is_data_error
    error_byte error_bit
one_check = refl

tables-xor :
    (a b : ℕ)
    → a < 16
    → b < 16
    → (lt (bit_xor a b) ≡ bit_xor (lt a) (lt b)) × (lpt (bit_xor a b) ≡ bit_xor (lpt a) (lpt b))
tables-xor a b ha hb =
    let both = all_below_sound 16 _ b (all_below_sound 16 _ a tables_check ha) hb in ground arith

pub pair-xor :
    (l p u v : ℕ)
    → l < 16
    → p < 16
    → u < 16
    → v < 16
    → pair (bit_xor l u) (bit_xor p v) ≡ bit_xor (pair l p) (pair u v)
unfolding pair
pair-xor l p u v hl hp hu hv =
    ap₂ bit_xor (tables-xor l u hl hu).0 (tables-xor p v hp hv).1
    ∙ xor_exchange (lt l) (lt u) (lpt p) (lpt v)

-- The change of a line byte depends on the change of the parities alone.
pub line_byte-delta :
    (l p u v : ℕ)
    → l < 16
    → p < 16
    → u < 16
    → v < 16
    → bit_xor (line_byte l p) (line_byte (bit_xor l u) (bit_xor p v)) ≡ pair u v
line_byte-delta l p u v hl hp hu hv =
    ap₂ bit_xor (line_byte-pair l p hl hp) (
      line_byte-pair (bit_xor l u) (bit_xor p v) (xor-lt-pow 4 l u hl hu) (xor-lt-pow 4 p v hp hv)
      ∙ ap (bit_xor 255) (pair-xor l p u v hl hp hu hv))
    ∙ xor_exchange 255 (pair l p) 255 (bit_xor (pair l p) (pair u v))
    ∙ zero-xor _
    ∙ xor_cancel_left (pair l p) (pair u v)

pub col_byte-delta :
    (c m : ℕ) → c < 256 → m < 256 → bit_xor (col_byte c) (col_byte (bit_xor c m)) ≡ m / 4 * 4
col_byte-delta c m hc hm =
    (==_iff _ _).0 (all_below_sound 256 _ m (all_below_sound 256 _ c col_byte_check hc) hm)

abbrev pub two_d2 : ℕ → ℕ → ℕ
two_d2 k n = bit_xor (col (2 ^ k)) (col (2 ^ n)) / 4 * 4

pub record OneBit (a b k d0 d1 d2 : ℕ) : Type 0 where
  pub nonzero : (bit_or (bit_or d0 d1) d2 == 0) ≡ false
  pub pattern : is_data_error d0 d1 d2 ≡ true
  pub byte : error_byte d0 d1 ≡ b * 16 + a
  pub bit : error_bit d2 ≡ k

pub one_bit :
    (a b k : ℕ)
    → a < 16
    → b < 16
    → k < 8
    → OneBit a b k (pair a (15 - a)) (pair b (15 - b)) (col (2 ^ k) / 4 * 4)
one_bit a b k ha hb hk =
    let all =
      all_below_sound 8 _ k (all_below_sound 16 _ b (all_below_sound 16 _ a one_check ha) hb) hk in
    ground arith

pub record TwoBits (d0 d1 d2 : ℕ) : Type 0 where
  pub nonzero : (bit_or (bit_or d0 d1) d2 == 0) ≡ false
  pub pattern : is_data_error d0 d1 d2 ≡ false
  pub weight : (bits d0 + bits d1 + bits d2 == 1) ≡ false

pub two_bits :
    (a b k n : ℕ)
    → a < 16
    → b < 16
    → k < 8
    → n < 8
    → ((a == 0) && (b == 0) && (k == n)) ≡ false
    → TwoBits (pair a a) (pair b b) (two_d2 k n)
two_bits a b k n ha hb hk hn differ =
    let all =
      all_below_sound 8 _ n
        (all_below_sound 8 _ k (all_below_sound 16 _ b (all_below_sound 16 _ a two_check ha) hb) hk)
        hn in
    ground arith
