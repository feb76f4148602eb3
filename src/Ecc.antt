-- ===== src/Ecc.antt =====
-- src/uffs_ecc.c: Hamming codes over 256-byte chunks (3 bytes each) and over 8 bytes (12 bits).
-- A byte buffer is the list of the bytes that the C function is given; pointers are not NULL
-- except where a function tests for it, and there a missing buffer is `none` or `false`.
mod Tables
pub mod Linear
pub mod Delta
pub mod Change
pub mod Chunk
pub mod CodeBit
pub mod Whole
mod Examples
pub mod Eight
use Tables.{bits_tbl, line_parity_tbl, line_parity_prime_tbl, column_parity_tbl}
use esp_uffs.Prelude.{
  ℕ, zero, suc, ◌+◌, ◌-◌, ◌*◌, ◌/◌, ◌%◌, ◌^◌, min, bit_and, bit_or, bit_xor, List, [], ◌∷◌, ◌++◌,
  Bool, true, false, ◌&&◌, Option, none, some, ltb, leb, ◌==◌, if◌then◌else◌, length, get_or, set,
  take, drop,
}
use esp_uffs.Prelude.Words.{u8, u16, lnot8, ◌<<<◌, ◌>>>◌}

-- The result of a correction: a non-negative return value, or -1.
pub data Fix : Type 0 where
  fixed : ℕ → Fix
  failed : Fix

-- The local variables of the parity loops; all are u8.
pub record Parity : Type 0 where
  pub col : ℕ
  pub line : ℕ
  pub prime : ℕ

-- One round: the byte `x` at index `i`.
unfoldable pub parity_step : Parity → ℕ → ℕ → Parity
parity_step p i x =
    let b = get_or column_parity_tbl x 0 in
    if bit_and b 0x01 == 0 then record p { col = bit_xor p.col b } else record {
      col = bit_xor p.col b;
      line = u8 (bit_xor p.line i);
      prime = bit_xor p.prime (lnot8 i);
    }

unfoldable pub parity_loop : List ℕ → ℕ → Parity → Parity
parity_loop [] i p = p
parity_loop (x ∷ xs) i p = parity_loop xs (i + 1) (parity_step p i x)

abbrev pub parity_start : Parity
parity_start = record { col = 0; line = 0; prime = 0 }

-- The layout of four line digits and their complements.
unfoldable pub line_byte : ℕ → ℕ → ℕ
line_byte l p = lnot8 (bit_or (get_or line_parity_tbl l 0) (get_or line_parity_prime_tbl p 0))

unfoldable pub col_byte : ℕ → ℕ
col_byte c = bit_or (lnot8 c) 0x03

unfoldable pub ecc_make_chunk256 : List ℕ → List ℕ
ecc_make_chunk256 xs =
    let p = parity_loop xs 0 parity_start in
    line_byte (bit_and p.line 0xf) (bit_and p.prime 0xf)
    ∷ line_byte (p.line >>> 4) (p.prime >>> 4)
    ∷ col_byte p.col
    ∷ []

-- The `while (data_len > 0)` loop; each round takes at least one byte, so `length` rounds do.
unfoldable pub ecc_make_loop : ℕ → List ℕ → List ℕ
ecc_make_loop zero xs = []
ecc_make_loop (suc fuel) [] = []
ecc_make_loop (suc fuel) (x ∷ xs) =
    ecc_make_chunk256 (take 256 (x ∷ xs)) ++ ecc_make_loop fuel (drop 256 (x ∷ xs))

-- The bytes written to `ecc`; their number is the return value. `ecc` says that it is not NULL.
unfoldable pub ecc_make : Option (List ℕ) → Bool → List ℕ
unfolding ecc_make_loop
ecc_make none ecc = []
ecc_make (some xs) ecc = if ecc then ecc_make_loop (length xs) xs else []

-- The pattern of one flipped data bit: one digit of each pair differs.
unfoldable pub is_data_error : ℕ → ℕ → ℕ → Bool
is_data_error d0 d1 d2 =
    (bit_and (bit_xor d0 (d0 >>> 1)) 0x55 == 0x55)
    && (bit_and (bit_xor d1 (d1 >>> 1)) 0x55 == 0x55)
    && (bit_and (bit_xor d2 (d2 >>> 1)) 0x54 == 0x54)

-- `if (d & mask) b |= bit;`
unfoldable pub pick : ℕ → ℕ → ℕ → ℕ → ℕ
pick d mask bit b = if bit_and d mask == 0 then b else bit_or b bit

unfoldable pub error_byte : ℕ → ℕ → ℕ
unfolding pick
error_byte d0 d1 = pick d0 0x02 0x01 (
    pick d0 0x08 0x02 (
      pick d0 0x20 0x04 (
        pick d0 0x80 0x08
          (pick d1 0x02 0x10 (pick d1 0x08 0x20 (pick d1 0x20 0x40 (pick d1 0x80 0x80 0)))))))

unfoldable pub error_bit : ℕ → ℕ
unfolding pick
error_bit d2 = pick d2 0x08 0x01 (pick d2 0x20 0x02 (pick d2 0x80 0x04 0))

-- `p[b] ^= (1 << bit)`.
unfoldable pub flip : List ℕ → ℕ → ℕ → List ℕ
flip xs b bit = set xs b (u8 (bit_xor (get_or xs b 0) (1 <<< bit)))

unfoldable pub bits : ℕ → ℕ
bits d = get_or bits_tbl d 0

-- What is done about the three differences.
unfoldable pub correct_delta : List ℕ → ℕ → ℕ → ℕ → ℕ → Fix × List ℕ
correct_delta xs errtop d0 d1 d2 =
    if bit_or (bit_or d0 d1) d2 == 0
    then (fixed 0, xs)
    else if is_data_error d0 d1 d2
    then (if leb errtop (error_byte d0 d1)
        then (failed, xs)
        else (fixed 1, flip xs (error_byte d0 d1) (error_bit d2)))
    else if bits d0 + bits d1 + bits d2 == 1
    then (fixed 1, xs)
    else (failed, xs)

unfoldable pub ecc_correct_chunk256 : List ℕ → List ℕ → List ℕ → ℕ → Fix × List ℕ
ecc_correct_chunk256 xs read_ecc test_ecc errtop =
    correct_delta xs errtop (bit_xor (get_or read_ecc 0 0) (get_or test_ecc 0 0))
      (bit_xor (get_or read_ecc 1 0) (get_or test_ecc 1 0))
      (bit_xor (get_or read_ecc 2 0) (get_or test_ecc 2 0))

-- After one chunk: -1 ends the loop, and what was corrected so far stays corrected.
unfoldable pub continue_with : Fix × List ℕ → List ℕ → (ℕ → Fix × List ℕ) → Fix × List ℕ
continue_with (failed, chunk) rest next = (failed, chunk ++ rest)
continue_with (fixed n, chunk) rest next = let (r, done) = next n in (r, chunk ++ done)

unfoldable pub ecc_correct_loop : ℕ → List ℕ → List ℕ → List ℕ → ℕ → Fix × List ℕ
ecc_correct_loop zero xs read_ecc test_ecc total = (fixed total, xs)
ecc_correct_loop (suc fuel) [] read_ecc test_ecc total = (fixed total, [])
ecc_correct_loop (suc fuel) (x ∷ xs) read_ecc test_ecc total =
    continue_with
      (ecc_correct_chunk256 (take 256 (x ∷ xs)) read_ecc test_ecc (min 256 (length (x ∷ xs))))
      (drop 256 (x ∷ xs))
      (λ n.
        ecc_correct_loop fuel (drop 256 (x ∷ xs)) (drop 3 read_ecc) (drop 3 test_ecc) (total + n))

unfoldable pub ecc_correct :
    Option (List ℕ) → Option (List ℕ) → Option (List ℕ) → Fix × Option (List ℕ)
unfolding ecc_correct_loop continue_with
ecc_correct none read_ecc test_ecc = (failed, none)
ecc_correct (some xs) none test_ecc = (failed, some xs)
ecc_correct (some xs) (some read_ecc) none = (failed, some xs)
ecc_correct (some xs) (some read_ecc) (some test_ecc) =
    let (r, done) = ecc_correct_loop (length xs) xs read_ecc test_ecc 0 in (r, some done)

-- `~x << 6` of a small `int`, kept to 16 bits.
unfoldable pub line_word : ℕ → ℕ → ℕ
line_word l p =
    u16 ((65535 - bit_or (get_or line_parity_tbl l 0) (get_or line_parity_prime_tbl p 0)) <<< 6)

unfoldable pub ecc_make8 : List ℕ → ℕ
ecc_make8 xs =
    let p = parity_loop (take 8 xs) 0 parity_start in
    bit_and
      (bit_or (line_word (bit_and p.line 0xf) (bit_and p.prime 0xf))
        (bit_and (lnot8 p.col >>> 2) 0x3f))
      0xfff

unfoldable pub is_data_error8 : ℕ → ℕ → Bool
is_data_error8 d0 d1 =
    (bit_and (bit_xor d0 (d0 >>> 1)) 0x15 == 0x15) && (bit_and (bit_xor d1 (d1 >>> 1)) 0x15 == 0x15)

unfoldable pub error_byte8 : ℕ → ℕ
unfolding pick
error_byte8 d0 = pick d0 0x02 0x01 (pick d0 0x08 0x02 (pick d0 0x20 0x04 0))

unfoldable pub correct_delta8 : List ℕ → ℕ → ℕ → ℕ → Fix × List ℕ
correct_delta8 xs errtop d0 d1 =
    if bit_or d0 d1 == 0
    then (fixed 0, xs)
    else if is_data_error8 d0 d1
    then (if leb (u8 errtop) (error_byte8 d0)
        then (failed, xs)
        else if leb 8 (error_byte8 d1)
        then (failed, xs)
        else (fixed 1, flip xs (error_byte8 d0) (error_byte8 d1)))
    else if bits d0 + bits d1 == 1
    then (fixed 1, xs)
    else (failed, xs)

unfoldable pub ecc_correct8 : List ℕ → ℕ → ℕ → ℕ → Fix × List ℕ
ecc_correct8 xs read_ecc test_ecc errtop =
    let r = bit_and read_ecc 0xfff in
    let t = bit_and test_ecc 0xfff in
    correct_delta8 xs errtop (u8 (bit_xor (r >>> 6) (t >>> 6)))
      (u8 (bit_xor (bit_and r 0x3f) (bit_and t 0x3f)))
