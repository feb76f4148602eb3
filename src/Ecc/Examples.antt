-- ===== src/Ecc/Examples.antt =====
-- The Hamming codes of src/uffs_ecc.c on concrete data.
use esp_uffs.Prelude.{◌≡◌, inl, List, [], ◌∷◌, ℕ, some, true, arith, length}
use esp_uffs.Ecc.{
  fixed, failed, flip, ecc_make_chunk256, ecc_correct_chunk256, ecc_make, ecc_correct,
}
use esp_uffs.Ecc.Chunk.{ecc_correct_chunk256-flip, ecc_correct_chunk256-flip-flip}
use esp_uffs.Ecc.Whole.{damage, count, ecc_correct-damage}

abbrev bytes : List ℕ
bytes = 0x12 ∷ 0x00 ∷ 0xfe ∷ []

ecc_correct_chunk256-flip_example :
    ecc_correct_chunk256
      (flip bytes 1 5)
      (ecc_make_chunk256 bytes)
      (ecc_make_chunk256 (flip bytes 1 5))
      (length bytes)
    ≡ (fixed 1, bytes)
ecc_correct_chunk256-flip_example =
    ecc_correct_chunk256-flip bytes 1 5 (omega arith, (omega arith, (omega arith, tt)))
      (omega arith) (omega arith) (omega arith)

ecc_correct_chunk256-flip-flip_example :
    ecc_correct_chunk256
      (flip (flip bytes 1 5) 2 5)
      (ecc_make_chunk256 bytes)
      (ecc_make_chunk256 (flip (flip bytes 1 5) 2 5))
      3
    ≡ (failed, flip (flip bytes 1 5) 2 5)
ecc_correct_chunk256-flip-flip_example =
    ecc_correct_chunk256-flip-flip bytes 1 5 2 5 3 (omega arith, (omega arith, (omega arith, tt)))
      (omega arith) (omega arith) (omega arith) (omega arith) (omega arith) (inl (omega arith))

ecc_correct-damage_example :
    ecc_correct
      (some (damage (some (1, 5) ∷ []) bytes))
      (some (ecc_make (some bytes) true))
      (some (ecc_make (some (damage (some (1, 5) ∷ []) bytes)) true))
    ≡ (fixed (count (some (1, 5) ∷ [])), some bytes)
ecc_correct-damage_example =
    ecc_correct-damage (some (1, 5) ∷ []) bytes (omega arith, (omega arith, (omega arith, tt)))
      ((omega arith, omega arith), tt)
