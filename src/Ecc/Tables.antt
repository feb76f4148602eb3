-- ===== src/Ecc/Tables.antt =====
-- The tables of src/uffs_ecc.c.
use esp_uffs.Prelude.{ℕ, List, [], ◌∷◌}

-- How many bits of a byte are set.
unfoldable pub bits_tbl : List ℕ
bits_tbl =
    0 ∷ 1 ∷ 1 ∷ 2 ∷ 1 ∷ 2 ∷ 2 ∷ 3 ∷ 1 ∷ 2 ∷ 2 ∷ 3 ∷ 2 ∷ 3 ∷ 3 ∷ 4 ∷ 1 ∷ 2 ∷ 2 ∷ 3 ∷ 2 ∷ 3 ∷ 3 ∷ 4
    ∷ 2 ∷ 3 ∷ 3 ∷ 4 ∷ 3 ∷ 4 ∷ 4 ∷ 5 ∷ 1 ∷ 2 ∷ 2 ∷ 3 ∷ 2 ∷ 3 ∷ 3 ∷ 4 ∷ 2 ∷ 3 ∷ 3 ∷ 4 ∷ 3 ∷ 4 ∷ 4 ∷ 5
    ∷ 2 ∷ 3 ∷ 3 ∷ 4 ∷ 3 ∷ 4 ∷ 4 ∷ 5 ∷ 3 ∷ 4 ∷ 4 ∷ 5 ∷ 4 ∷ 5 ∷ 5 ∷ 6 ∷ 1 ∷ 2 ∷ 2 ∷ 3 ∷ 2 ∷ 3 ∷ 3 ∷ 4
    ∷ 2 ∷ 3 ∷ 3 ∷ 4 ∷ 3 ∷ 4 ∷ 4 ∷ 5 ∷ 2 ∷ 3 ∷ 3 ∷ 4 ∷ 3 ∷ 4 ∷ 4 ∷ 5 ∷ 3 ∷ 4 ∷ 4 ∷ 5 ∷ 4 ∷ 5 ∷ 5 ∷ 6
    ∷ 2 ∷ 3 ∷ 3 ∷ 4 ∷ 3 ∷ 4 ∷ 4 ∷ 5 ∷ 3 ∷ 4 ∷ 4 ∷ 5 ∷ 4 ∷ 5 ∷ 5 ∷ 6 ∷ 3 ∷ 4 ∷ 4 ∷ 5 ∷ 4 ∷ 5 ∷ 5 ∷ 6
    ∷ 4 ∷ 5 ∷ 5 ∷ 6 ∷ 5 ∷ 6 ∷ 6 ∷ 7 ∷ 1 ∷ 2 ∷ 2 ∷ 3 ∷ 2 ∷ 3 ∷ 3 ∷ 4 ∷ 2 ∷ 3 ∷ 3 ∷ 4 ∷ 3 ∷ 4 ∷ 4 ∷ 5
    ∷ 2 ∷ 3 ∷ 3 ∷ 4 ∷ 3 ∷ 4 ∷ 4 ∷ 5 ∷ 3 ∷ 4 ∷ 4 ∷ 5 ∷ 4 ∷ 5 ∷ 5 ∷ 6 ∷ 2 ∷ 3 ∷ 3 ∷ 4 ∷ 3 ∷ 4 ∷ 4 ∷ 5
    ∷ 3 ∷ 4 ∷ 4 ∷ 5 ∷ 4 ∷ 5 ∷ 5 ∷ 6 ∷ 3 ∷ 4 ∷ 4 ∷ 5 ∷ 4 ∷ 5 ∷ 5 ∷ 6 ∷ 4 ∷ 5 ∷ 5 ∷ 6 ∷ 5 ∷ 6 ∷ 6 ∷ 7
    ∷ 2 ∷ 3 ∷ 3 ∷ 4 ∷ 3 ∷ 4 ∷ 4 ∷ 5 ∷ 3 ∷ 4 ∷ 4 ∷ 5 ∷ 4 ∷ 5 ∷ 5 ∷ 6 ∷ 3 ∷ 4 ∷ 4 ∷ 5 ∷ 4 ∷ 5 ∷ 5 ∷ 6
    ∷ 4 ∷ 5 ∷ 5 ∷ 6 ∷ 5 ∷ 6 ∷ 6 ∷ 7 ∷ 3 ∷ 4 ∷ 4 ∷ 5 ∷ 4 ∷ 5 ∷ 5 ∷ 6 ∷ 4 ∷ 5 ∷ 5 ∷ 6 ∷ 5 ∷ 6 ∷ 6 ∷ 7
    ∷ 4 ∷ 5 ∷ 5 ∷ 6 ∷ 5 ∷ 6 ∷ 6 ∷ 7 ∷ 5 ∷ 6 ∷ 6 ∷ 7 ∷ 6 ∷ 7 ∷ 7 ∷ 8 ∷ []

unfoldable pub line_parity_tbl : List ℕ
line_parity_tbl =
    0x00 ∷ 0x02 ∷ 0x08 ∷ 0x0a ∷ 0x20 ∷ 0x22 ∷ 0x28 ∷ 0x2a ∷ 0x80 ∷ 0x82 ∷ 0x88 ∷ 0x8a ∷ 0xa0 ∷ 0xa2
    ∷ 0xa8 ∷ 0xaa ∷ []

unfoldable pub line_parity_prime_tbl : List ℕ
line_parity_prime_tbl =
    0x00 ∷ 0x01 ∷ 0x04 ∷ 0x05 ∷ 0x10 ∷ 0x11 ∷ 0x14 ∷ 0x15 ∷ 0x40 ∷ 0x41 ∷ 0x44 ∷ 0x45 ∷ 0x50 ∷ 0x51
    ∷ 0x54 ∷ 0x55 ∷ []

unfoldable pub column_parity_tbl : List ℕ
column_parity_tbl =
    0x00 ∷ 0x55 ∷ 0x59 ∷ 0x0c ∷ 0x65 ∷ 0x30 ∷ 0x3c ∷ 0x69 ∷ 0x69 ∷ 0x3c ∷ 0x30 ∷ 0x65 ∷ 0x0c ∷ 0x59
    ∷ 0x55 ∷ 0x00 ∷ 0x95 ∷ 0xc0 ∷ 0xcc ∷ 0x99 ∷ 0xf0 ∷ 0xa5 ∷ 0xa9 ∷ 0xfc ∷ 0xfc ∷ 0xa9 ∷ 0xa5
    ∷ 0xf0 ∷ 0x99 ∷ 0xcc ∷ 0xc0 ∷ 0x95 ∷ 0x99 ∷ 0xcc ∷ 0xc0 ∷ 0x95 ∷ 0xfc ∷ 0xa9 ∷ 0xa5 ∷ 0xf0
    ∷ 0xf0 ∷ 0xa5 ∷ 0xa9 ∷ 0xfc ∷ 0x95 ∷ 0xc0 ∷ 0xcc ∷ 0x99 ∷ 0x0c ∷ 0x59 ∷ 0x55 ∷ 0x00 ∷ 0x69
    ∷ 0x3c ∷ 0x30 ∷ 0x65 ∷ 0x65 ∷ 0x30 ∷ 0x3c ∷ 0x69 ∷ 0x00 ∷ 0x55 ∷ 0x59 ∷ 0x0c ∷ 0xa5 ∷ 0xf0
    ∷ 0xfc ∷ 0xa9 ∷ 0xc0 ∷ 0x95 ∷ 0x99 ∷ 0xcc ∷ 0xcc ∷ 0x99 ∷ 0x95 ∷ 0xc0 ∷ 0xa9 ∷ 0xfc ∷ 0xf0
    ∷ 0xa5 ∷ 0x30 ∷ 0x65 ∷ 0x69 ∷ 0x3c ∷ 0x55 ∷ 0x00 ∷ 0x0c ∷ 0x59 ∷ 0x59 ∷ 0x0c ∷ 0x00 ∷ 0x55
    ∷ 0x3c ∷ 0x69 ∷ 0x65 ∷ 0x30 ∷ 0x3c ∷ 0x69 ∷ 0x65 ∷ 0x30 ∷ 0x59 ∷ 0x0c ∷ 0x00 ∷ 0x55 ∷ 0x55
    ∷ 0x00 ∷ 0x0c ∷ 0x59 ∷ 0x30 ∷ 0x65 ∷ 0x69 ∷ 0x3c ∷ 0xa9 ∷ 0xfc ∷ 0xf0 ∷ 0xa5 ∷ 0xcc ∷ 0x99
    ∷ 0x95 ∷ 0xc0 ∷ 0xc0 ∷ 0x95 ∷ 0x99 ∷ 0xcc ∷ 0xa5 ∷ 0xf0 ∷ 0xfc ∷ 0xa9 ∷ 0xa9 ∷ 0xfc ∷ 0xf0
    ∷ 0xa5 ∷ 0xcc ∷ 0x99 ∷ 0x95 ∷ 0xc0 ∷ 0xc0 ∷ 0x95 ∷ 0x99 ∷ 0xcc ∷ 0xa5 ∷ 0xf0 ∷ 0xfc ∷ 0xa9
    ∷ 0x3c ∷ 0x69 ∷ 0x65 ∷ 0x30 ∷ 0x59 ∷ 0x0c ∷ 0x00 ∷ 0x55 ∷ 0x55 ∷ 0x00 ∷ 0x0c ∷ 0x59 ∷ 0x30
    ∷ 0x65 ∷ 0x69 ∷ 0x3c ∷ 0x30 ∷ 0x65 ∷ 0x69 ∷ 0x3c ∷ 0x55 ∷ 0x00 ∷ 0x0c ∷ 0x59 ∷ 0x59 ∷ 0x0c
    ∷ 0x00 ∷ 0x55 ∷ 0x3c ∷ 0x69 ∷ 0x65 ∷ 0x30 ∷ 0xa5 ∷ 0xf0 ∷ 0xfc ∷ 0xa9 ∷ 0xc0 ∷ 0x95 ∷ 0x99
    ∷ 0xcc ∷ 0xcc ∷ 0x99 ∷ 0x95 ∷ 0xc0 ∷ 0xa9 ∷ 0xfc ∷ 0xf0 ∷ 0xa5 ∷ 0x0c ∷ 0x59 ∷ 0x55 ∷ 0x00
    ∷ 0x69 ∷ 0x3c ∷ 0x30 ∷ 0x65 ∷ 0x65 ∷ 0x30 ∷ 0x3c ∷ 0x69 ∷ 0x00 ∷ 0x55 ∷ 0x59 ∷ 0x0c ∷ 0x99
    ∷ 0xcc ∷ 0xc0 ∷ 0x95 ∷ 0xfc ∷ 0xa9 ∷ 0xa5 ∷ 0xf0 ∷ 0xf0 ∷ 0xa5 ∷ 0xa9 ∷ 0xfc ∷ 0x95 ∷ 0xc0
    ∷ 0xcc ∷ 0x99 ∷ 0x95 ∷ 0xc0 ∷ 0xcc ∷ 0x99 ∷ 0xf0 ∷ 0xa5 ∷ 0xa9 ∷ 0xfc ∷ 0xfc ∷ 0xa9 ∷ 0xa5
    ∷ 0xf0 ∷ 0x99 ∷ 0xcc ∷ 0xc0 ∷ 0x95 ∷ 0x00 ∷ 0x55 ∷ 0x59 ∷ 0x0c ∷ 0x65 ∷ 0x30 ∷ 0x3c ∷ 0x69
    ∷ 0x69 ∷ 0x3c ∷ 0x30 ∷ 0x65 ∷ 0x0c ∷ 0x59 ∷ 0x55 ∷ 0x00 ∷ []
