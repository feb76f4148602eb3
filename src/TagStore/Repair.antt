-- ===== src/TagStore/Repair.antt =====
-- The stored tag of src/uffs_flash.c against its bytes, and the repair of one of its bits.
use esp_uffs.Prelude.{ℕ, ◌+◌, ◌*◌, ◌/◌, ◌%◌, ◌<◌, ◌^◌, bit_and, ◌≡◌, refl, ◌∙◌, List, arith}
use esp_uffs.Prelude.Words.{AreBytes}
use esp_uffs.Bits.{xor_comm, xor_self, and-mask}
use esp_uffs.Ecc.{fixed, flip, correct_delta8, ecc_make8, ecc_correct8}
use esp_uffs.Ecc.Eight.{ecc_correct8-flip}
use esp_uffs.BlockInfo.{Tags}
use esp_uffs.Flash.{Bytes}
use esp_uffs.TagStore.{
  of_list, tag_word0, tag_word1, word_bytes, tag_bytes, bytes_word, tag_of_bytes, tag_make_ecc,
  tag_ecc_correct,
}

-- Every field fits its bits.
pub record IsStored (t : Tags) : Type 0 where
  pub dirty : t.dirty < 2
  pub valid : t.valid < 2
  pub kind : t.kind < 4
  pub block_ts : t.block_ts < 4
  pub data_len : t.data_len < 4096
  pub serial : t.serial < 16384
  pub parent : t.parent < 1024
  pub page_id : t.page_id < 64
  pub reserved : t.reserved < 16
  pub tag_ecc : t.tag_ecc < 4096

-- The tag as its code is made: with ones in the place of the code.
abbrev pub open_tag : Tags → Tags
open_tag t = record t { tag_ecc = 0xfff }

word-bytes :
    (w : ℕ)
    → w < 4294967296
    → w % 256 + 256 * (w / 256 % 256) + 65536 * (w / 65536 % 256) + 16777216 * (w / 16777216 % 256)
      ≡ w
word-bytes w h = omega arith

word0-lt : (t : Tags) → IsStored t → tag_word0 t < 4294967296
unfolding tag_word0
word0-lt t v = omega arith

word1-lt : (t : Tags) → IsStored t → tag_word1 t < 4294967296
unfolding tag_word1
word1-lt t v = omega arith

AreBytes-tag_bytes : (t : Tags) → AreBytes (tag_bytes t)
unfolding tag_bytes
AreBytes-tag_bytes t = omega arith

words-tag_bytes :
    (t : Tags)
    → IsStored t
    → (bytes_word (of_list (tag_bytes t)) 0 ≡ tag_word0 t)
      × (bytes_word (of_list (tag_bytes t)) 4 ≡ tag_word1 t)
unfolding tag_bytes bytes_word of_list word_bytes
words-tag_bytes t v =
    (word-bytes (tag_word0 t) (word0-lt t v), word-bytes (tag_word1 t) (word1-lt t v))

-- The rest of a tag, which is not stored.
abbrev SameRest : Tags → Tags → Type 0
SameRest t old = (old.data_sum ≡ t.data_sum) × (old.seal_byte ≡ t.seal_byte)

pub tag_of_bytes-tag_bytes :
    (t old : Tags) → IsStored t → SameRest t old → tag_of_bytes (of_list (tag_bytes t)) old ≡ t
unfolding tag_of_bytes tag_word0 tag_word1
tag_of_bytes-tag_bytes t old v same =
    rw ((words-tag_bytes t v).0, (words-tag_bytes t v).1) (ground arith)

open_tag-IsStored : (t : Tags) → IsStored t → IsStored (open_tag t)
open_tag-IsStored t v = ground arith

ecc_correct8_comm : (xs : List ℕ) (a b top : ℕ) → ecc_correct8 xs a b top ≡ ecc_correct8 xs b a top
unfolding ecc_correct8
ecc_correct8_comm xs a b top =
    rw (xor_comm (bit_and a 0xfff / 2 ^ 6), xor_comm (bit_and (bit_and a 0xfff) 0x3f)) refl

ecc_make8-lt : (xs : List ℕ) → ecc_make8 xs < 4096
unfolding ecc_make8
ecc_make8-lt xs = omega (arith, and-mask 12)

ecc_correct8-same : (xs : List ℕ) (a top : ℕ) → ecc_correct8 xs a a top ≡ (fixed 0, xs)
unfolding ecc_correct8 correct_delta8
ecc_correct8-same xs a top =
    rw (xor_self (bit_and a 0xfff / 2 ^ 6), xor_self (bit_and (bit_and a 0xfff) 0x3f)) refl

-- A stored tag whose fields fit their bits and that is read with one wrong bit outside of its code
-- is restored by TagEccCorrect, which reports one error.
pub tag_ecc_correct-flip :
    (t t' : Tags) (j k : ℕ)
    → IsStored t
    → j < 8
    → k < 8
    → tag_bytes (open_tag t') ≡ flip (tag_bytes (open_tag t)) j k
    → SameRest t t'
    → t'.tag_ecc ≡ (tag_make_ecc t).tag_ecc
    → tag_ecc_correct t' ≡ (fixed 1, tag_make_ecc t)
unfolding tag_ecc_correct tag_make_ecc tag_bytes
tag_ecc_correct-flip t t' j k v hj hk flipped same code =
    let xs = tag_bytes (open_tag t) in
    let fix : ecc_correct8 (tag_bytes (open_tag t')) (ecc_make8 (tag_bytes (open_tag t')))
          t'.tag_ecc 8
        ≡ (fixed 1, xs) =
      rw (flipped, code)
        (ecc_correct8_comm (flip xs j k) (ecc_make8 (flip xs j k)) (ecc_make8 xs) 8
          ∙ ecc_correct8-flip xs j k (AreBytes-tag_bytes (open_tag t)) (omega arith) hj hk) in
    let back = tag_of_bytes-tag_bytes (open_tag t) t' (open_tag-IsStored t v) same in
    rw (fix, back, code) refl

-- A tag is read from its eight bytes only.
pub tag_of_bytes-ext :
    (b c : Bytes) (old : Tags)
    → ((i : ℕ) → i < 8 → b i ≡ c i)
    → tag_of_bytes b old ≡ tag_of_bytes c old
unfolding tag_of_bytes bytes_word
tag_of_bytes-ext b c old h = rw (
  h 0 (omega arith),
  h 1 (omega arith),
  h 2 (omega arith),
  h 3 (omega arith),
  h 4 (omega arith),
  h 5 (omega arith),
  h 6 (omega arith),
  h 7 (omega arith),
)

pub tag_make_ecc-IsStored : (t : Tags) → IsStored t → IsStored (tag_make_ecc t)
unfolding tag_make_ecc
tag_make_ecc-IsStored t v = ground (arith, ecc_make8-lt (tag_bytes (open_tag t)))

-- The code of a whole tag finds nothing to repair.
pub tag_ecc_correct-whole :
    (t : Tags) → IsStored t → tag_ecc_correct (tag_make_ecc t) ≡ (fixed 0, tag_make_ecc t)
unfolding tag_ecc_correct tag_make_ecc
tag_ecc_correct-whole t v =
    let xs = tag_bytes (open_tag t) in
    rw
      (
        ecc_correct8-same xs (ecc_make8 xs) 8,
        tag_of_bytes-tag_bytes (open_tag t) (tag_make_ecc t) (open_tag-IsStored t v) (refl, refl),
      )
      refl
