-- ===== src/Crc/Examples.antt =====
-- The CRC of src/uffs_crc.c on concrete strings.
use esp_uffs.Prelude.{◌≡◌, ◌≢◌, refl, inl, [], ◌∷◌, arith}
use esp_uffs.Crc.{crc16_tbl, crc16, crc16update, crc16sum}
use esp_uffs.Crc.Reference.{crc_serial, crc16update-crc_serial}
use esp_uffs.Crc.Detect.{crc16sum_detects_pair}

-- The published check value of CRC-16/MCRF4XX for "123456789".
check_value : crc16sum (0x31 ∷ 0x32 ∷ 0x33 ∷ 0x34 ∷ 0x35 ∷ 0x36 ∷ 0x37 ∷ 0x38 ∷ 0x39 ∷ []) ≡ 0x6F91
unfolding crc16sum crc16update crc16 crc16_tbl
check_value = refl

crc16update-crc_serial_example :
    crc16update (0x31 ∷ 0xFF ∷ []) 0xFFFF ≡ crc_serial (0x31 ∷ 0xFF ∷ []) 0xFFFF
crc16update-crc_serial_example =
    crc16update-crc_serial (0x31 ∷ 0xFF ∷ []) 0xFFFF (omega arith, (omega arith, tt))

crc16sum_detects_pair_example : crc16sum (7 ∷ 1 ∷ 2 ∷ 9 ∷ []) ≢ crc16sum (7 ∷ 3 ∷ 2 ∷ 9 ∷ [])
crc16sum_detects_pair_example =
    crc16sum_detects_pair (7 ∷ []) (9 ∷ []) 1 2 3 2 (omega arith, tt) (omega arith, tt)
      (omega arith, (omega arith, (omega arith, (omega arith, tt)))) (inl (omega arith))
