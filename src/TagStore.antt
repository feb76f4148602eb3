-- ===== src/TagStore.antt =====
-- src/uffs_flash.c: the eight bytes of a stored tag (`struct uffs_TagStoreSt`) and their code.
pub mod Repair
mod Examples
use esp_uffs.Prelude.{ℕ, zero, suc, ◌+◌, ◌-◌, ◌*◌, ◌/◌, ◌%◌, List, [], ◌∷◌, ◌++◌, get_or}
use esp_uffs.Ecc.{Fix, fixed, failed, ecc_make8, ecc_correct8}
use esp_uffs.BlockInfo.{Tags}
use esp_uffs.Flash.{Bytes}

unfoldable pub slice : Bytes → ℕ → ℕ → List ℕ
slice b from zero = []
slice b from (suc n) = b from ∷ slice b (from + 1) n

unfoldable pub of_list : List ℕ → Bytes
of_list xs = λ i. get_or xs i 0

-- The two words of uffs_TagStoreSt, the bit fields from the lowest bit on, as compilers for
-- little-endian processors lay them out.
unfoldable pub tag_word0 : Tags → ℕ
tag_word0 t =
    t.dirty + 2 * t.valid + 4 * t.kind + 16 * t.block_ts + 64 * t.data_len + 262144 * t.serial

unfoldable pub tag_word1 : Tags → ℕ
tag_word1 t = t.parent + 1024 * t.page_id + 65536 * t.reserved + 1048576 * t.tag_ecc

unfoldable pub word_bytes : ℕ → List ℕ
word_bytes w = w % 256 ∷ w / 256 % 256 ∷ w / 65536 % 256 ∷ w / 16777216 % 256 ∷ []

unfoldable pub tag_bytes : Tags → List ℕ
unfolding tag_word0 tag_word1 word_bytes
tag_bytes t = word_bytes (tag_word0 t) ++ word_bytes (tag_word1 t)

unfoldable pub bytes_word : Bytes → ℕ → ℕ
bytes_word b at = b at + 256 * b (at + 1) + 65536 * b (at + 2) + 16777216 * b (at + 3)

-- The stored part of a tag is read from its eight bytes; `old` gives the rest.
unfoldable pub tag_of_bytes : Bytes → Tags → Tags
unfolding bytes_word
tag_of_bytes b old =
    let w0 = bytes_word b 0 in
    let w1 = bytes_word b 4 in
    record old {
      dirty = w0 % 2;
      valid = w0 / 2 % 2;
      kind = w0 / 4 % 4;
      block_ts = w0 / 16 % 4;
      data_len = w0 / 64 % 4096;
      serial = w0 / 262144 % 16384;
      parent = w1 % 1024;
      page_id = w1 / 1024 % 64;
      reserved = w1 / 65536 % 16;
      tag_ecc = w1 / 1048576 % 4096;
    }

unfoldable pub tag_make_ecc : Tags → Tags
tag_make_ecc ts = record ts { tag_ecc = ecc_make8 (tag_bytes (record ts { tag_ecc = 0xfff })) }

unfoldable pub tag_ecc_correct : Tags → Fix × Tags
tag_ecc_correct ts =
    let bytes = tag_bytes (record ts { tag_ecc = 0xfff }) in
    let (ret, done) = ecc_correct8 bytes (ecc_make8 bytes) ts.tag_ecc 8 in
    (ret, record (tag_of_bytes (of_list done) ts) { tag_ecc = ts.tag_ecc })
