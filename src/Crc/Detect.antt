-- ===== src/Crc/Detect.antt =====
-- Which changes of a string the CRC of src/uffs_crc.c is sure to show.
use esp_uffs.Prelude.{
  ℕ, ◌+◌, ◌*◌, ◌<◌, bit_xor, ◌≡◌, ◌≢◌, sym, ◌∙◌, ap, ap₂, ◌⊎◌, inl, inr, List, [], ◌∷◌, ◌++◌, arith,
}
use esp_uffs.Prelude.Words.{AreBytes}
use esp_uffs.Bits.{xor_assoc, xor_comm, xor_cancel_left, xor-lt-65536, xor-fields}
use esp_uffs.Crc.Serial.{shifts, shifts-xor, shifts-high, shifts-lt, shifts_inj}
use esp_uffs.Crc.{crc16, crc16update, crc16sum}
use esp_uffs.Crc.Reference.{crc16-shifts, crc16-lt, crc16update-append, crc16update-lt}

xor_inj_right : (v a b : ℕ) → bit_xor v a ≡ bit_xor v b → a ≡ b
xor_inj_right v a b e = sym (xor_cancel_left v a) ∙ ap (bit_xor v) e ∙ xor_cancel_left v b

crc16_inj : (x v w : ℕ) → x < 256 → v < 65536 → w < 65536 → crc16 v x ≡ crc16 w x → v ≡ w
crc16_inj x v w hx hv hw e =
    let h : x < 65536 = omega arith in
    let same =
      shifts_inj 8 (bit_xor v x) (bit_xor w x) (xor-lt-65536 v x hv h) (xor-lt-65536 w x hw h)
        (sym (crc16-shifts v x hx) ∙ e ∙ crc16-shifts w x hx) in
    xor_inj_right x v w (xor_comm x v ∙ same ∙ xor_comm w x)

crc16update_inj :
    (p : List ℕ) (v w : ℕ)
    → AreBytes p
    → v < 65536
    → w < 65536
    → crc16update p v ≡ crc16update p w
    → v ≡ w
unfolding crc16update
crc16update_inj [] v w h hv hw e = e
crc16update_inj (x ∷ p) v w h hv hw e =
    crc16_inj x v w h.0 hv hw
      (crc16update_inj p (crc16 v x) (crc16 w x) h.1 (crc16-lt v x hv h.0) (crc16-lt w x hw h.0) e)

-- Two bytes in a row are shifted through as one 16-bit word.
word : ℕ → ℕ → ℕ → ℕ
word v x y = bit_xor v (bit_xor (y * 256) x)

crc16-crc16 :
    (v x y : ℕ) → x < 256 → y < 256 → crc16 (crc16 v x) y ≡ shifts 8 (shifts 8 (word v x y))
unfolding word
crc16-crc16 v x y hx hy =
    crc16-shifts (crc16 v x) y hy
    ∙ ap (shifts 8) (
        ap₂ bit_xor (crc16-shifts v x hx) (sym (shifts-high 8 y))
        ∙ sym (shifts-xor 8 (bit_xor v x) (y * 256))
        ∙ ap (shifts 8) (xor_assoc v x (y * 256) ∙ ap (bit_xor v) (xor_comm x (y * 256))))

word_inj : (v x y x' y' : ℕ) → x < 256 → x' < 256 → word v x y ≡ word v x' y' → (x ≡ x') × (y ≡ y')
unfolding word
word_inj v x y x' y' hx hx' e =
    let same : y * 256 + x ≡ y' * 256 + x' =
      sym (xor-fields 8 y x hx) ∙ xor_inj_right v _ _ e ∙ xor-fields 8 y' x' hx' in
    omega arith

word-lt : (v x y : ℕ) → v < 65536 → x < 256 → y < 256 → word v x y < 65536
unfolding word
word-lt v x y hv hx hy =
    xor-lt-65536 v (bit_xor (y * 256) x) hv (xor-lt-65536 (y * 256) x (omega arith) (omega arith))

crc16-pair_inj :
    (v x y x' y' : ℕ)
    → v < 65536
    → AreBytes (x ∷ y ∷ x' ∷ y' ∷ [])
    → crc16 (crc16 v x) y ≡ crc16 (crc16 v x') y'
    → (x ≡ x') × (y ≡ y')
crc16-pair_inj v x y x' y' hv (hx, (hy, (hx', (hy', _)))) e =
    let lt = word-lt v x y hv hx hy in
    let lt' = word-lt v x' y' hv hx' hy' in
    let words = shifts_inj 8 _ _ lt lt' (
      shifts_inj 8 _ _ (shifts-lt 8 _ lt) (shifts-lt 8 _ lt')
        (sym (crc16-crc16 v x y hx hy) ∙ e ∙ crc16-crc16 v x' y' hx' hy')) in
    word_inj v x y x' y' hx hx' words

-- Byte strings of one length that differ only within two adjacent bytes have different checksums.
pub crc16sum_detects_pair :
    (pre post : List ℕ) (x y x' y' : ℕ)
    → AreBytes pre
    → AreBytes post
    → AreBytes (x ∷ y ∷ x' ∷ y' ∷ [])
    → (x ≢ x') ⊎ (y ≢ y')
    → crc16sum (pre ++ x ∷ y ∷ post) ≢ crc16sum (pre ++ x' ∷ y' ∷ post)
unfolding crc16sum crc16update
crc16sum_detects_pair pre post x y x' y' hpre hpost (hx, (hy, (hx', (hy', _)))) differ e =
    let c = crc16update pre 0xFFFF in
    let hc : c < 65536 = crc16update-lt pre 0xFFFF hpre (omega arith) in
    let tails =
      sym (crc16update-append pre (x ∷ y ∷ post) 0xFFFF)
      ∙ e
      ∙ crc16update-append pre (x' ∷ y' ∷ post) 0xFFFF in
    let pair =
      crc16update_inj post (crc16 (crc16 c x) y) (crc16 (crc16 c x') y') hpost
        (crc16-lt _ y (crc16-lt c x hc hx) hy) (crc16-lt _ y' (crc16-lt c x' hc hx') hy') tails in
    let (ex, ey) = crc16-pair_inj c x y x' y' hc (hx, (hy, (hx', (hy', tt)))) pair in
    elim differ [ inl n ↦ n ex | inr n ↦ n ey ]
