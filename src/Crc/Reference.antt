-- ===== src/Crc/Reference.antt =====
-- The table-driven update of src/uffs_crc.c against the bit-serial division it stands for.
use esp_uffs.Prelude.{
  ℕ, ◌*◌, ◌/◌, ◌%◌, ◌<◌, bit_and, bit_xor, ◌≡◌, refl, sym, ◌∙◌, ap, ap₂, List, [], ◌∷◌, ◌++◌, true,
  arith, get_or, all_below, all_below_sound, ◌==◌, ==_iff,
}
use esp_uffs.Prelude.Words.{AreBytes}
use esp_uffs.Bits.{xor-zero, xor-lt-65536, xor-shift, xor-fields, and-mask}
use esp_uffs.Crc.Serial.{shift, feed, shifts, shifts-xor, shifts-high, shifts-lt}
use esp_uffs.Crc.{crc16_tbl, crc16, crc16update}
use native.Mathlib.Nat.{div-eq_of_lt}

-- Eight shifts for each byte, low bit first.
unfoldable pub crc_serial : List ℕ → ℕ → ℕ
crc_serial [] crc = crc
crc_serial (x ∷ p) crc = crc_serial p (shifts 8 (bit_xor crc x))

tbl_check : all_below 256 (λ i. get_or crc16_tbl i 0 == shifts 8 i) ≡ true
unfolding all_below crc16_tbl shifts shift feed
tbl_check = refl

tbl-shifts : (i : ℕ) → i < 256 → get_or crc16_tbl i 0 ≡ shifts 8 i
tbl-shifts i h = (==_iff _ _).0 (all_below_sound 256 _ i tbl_check h)

shifts-byte : (w : ℕ) → shifts 8 w ≡ bit_xor (w / 256) (shifts 8 (w % 256))
shifts-byte w =
    ap (shifts 8) (omega (arith, xor-fields 8 (w / 256) (w % 256)))
    ∙ shifts-xor 8 (w / 256 * 256) (w % 256)
    ∙ ap (λ t. bit_xor t (shifts 8 (w % 256))) (shifts-high 8 (w / 256))

pub crc16-shifts : (v x : ℕ) → x < 256 → crc16 v x ≡ shifts 8 (bit_xor v x)
unfolding crc16
crc16-shifts v x h =
    let w = bit_xor v x in
    let index : bit_and w 0x00ff ≡ w % 256 = and-mask 8 w in
    let high : w / 256 ≡ v / 256 =
      xor-shift 8 v x ∙ ap (bit_xor (v / 256)) (div-eq_of_lt h) ∙ xor-zero (v / 256) in
    ap₂ bit_xor (sym high)
      (ap (λ i. get_or crc16_tbl i 0) index ∙ tbl-shifts (w % 256) (omega arith))
    ∙ sym (shifts-byte w)

pub crc16-lt : (v x : ℕ) → v < 65536 → x < 256 → crc16 v x < 65536
crc16-lt v x p q = rw (crc16-shifts v x q) (shifts-lt 8 _ (xor-lt-65536 v x p (omega arith)))

-- For every byte string and every start value, the table-driven update gives what shifting bit by
-- bit through the reflected polynomial 0x8408 gives.
pub crc16update-crc_serial :
    (p : List ℕ) (crc : ℕ) → AreBytes p → crc16update p crc ≡ crc_serial p crc
unfolding crc16update crc_serial
crc16update-crc_serial [] crc h = refl
crc16update-crc_serial (x ∷ p) crc h =
    ap (crc16update p) (crc16-shifts crc x h.0)
    ∙ crc16update-crc_serial p (shifts 8 (bit_xor crc x)) h.1

-- A string may be summed in parts.
pub crc16update-append :
    (p q : List ℕ) (crc : ℕ) → crc16update (p ++ q) crc ≡ crc16update q (crc16update p crc)
unfolding crc16update
crc16update-append [] q crc = refl
crc16update-append (x ∷ p) q crc = crc16update-append p q (crc16 crc x)

pub crc16update-lt : (p : List ℕ) (crc : ℕ) → AreBytes p → crc < 65536 → crc16update p crc < 65536
unfolding crc16update
crc16update-lt [] crc h c = c
crc16update-lt (x ∷ p) crc h c = crc16update-lt p (crc16 crc x) h.1 (crc16-lt crc x c h.0)
