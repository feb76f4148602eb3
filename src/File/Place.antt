-- ===== src/File/Place.antt =====
-- src/uffs_fs.c: the block, the page and the place in the page of a file offset.
use native.Mathlib.Nat.{
  div-lt_iff_lt-mul, div-mul-le_self, mod-lt, mul_comm, mul_assoc, div-add-mod,
  add-mul-mod_self_left, add-mul-mod_self_right, mul-pos, mod-eq_of_lt,
}
use esp_uffs.Prelude.{
  ℕ, ◌+◌, ◌-◌, ◌*◌, ◌/◌, ◌%◌, ◌<◌, ◌≤◌, ◌≡◌, refl, ◌∙◌, ap, true, false, ◌==◌, ltb, if◌then◌else◌,
  ◌⊎◌, inl, inr, arith, Bool-cases,
}
use esp_uffs.Prelude.Words.{u16, u32}
use esp_uffs.File.{Object, get_fdn_by_ofs, get_start_of_data_block, page_id_of_ofs}

-- Sizes that fit the C types.
pub record Fits (o : Object) : Type 0 where
  pub some_data : 0 < o.pg_data_size
  pub some_pages : 0 < o.pages_per_block
  pub head : o.head_pages < 65535
  pub pages : o.pages_per_block < 65536
  pub head_bytes : o.head_pages * o.pg_data_size < 4294967296

-- A page `id` of the block `fdn`, whose data start at `start`, holds the offset.
abbrev pub IsPlace : Object → ℕ → ℕ → ℕ → ℕ → Type 0
IsPlace o ofs fdn id start =
    (start + (if fdn == 0 then id - 1 else id) * o.pg_data_size + ofs % o.pg_data_size ≡ ofs)
    × (((fdn ≡ 0) × (1 ≤ id) × (id ≤ o.head_pages)) ⊎ ((1 ≤ fdn) × (id < o.pages_per_block)))

place_of :
    (o : Object) (ofs fdn start : ℕ)
    → get_fdn_by_ofs o ofs ≡ fdn
    → get_start_of_data_block o fdn ≡ start
    → let page = u16 ((ofs - start) / o.pg_data_size) in
      page_id_of_ofs o ofs ≡ (if fdn == 0 then u16 (page + 1) else page)
unfolding page_id_of_ofs
place_of o ofs fdn start e f = rw (e, f) refl

to_place :
    (o : Object) (ofs fdn start id : ℕ)
    → get_fdn_by_ofs o ofs ≡ fdn
    → get_start_of_data_block o fdn ≡ start
    → page_id_of_ofs o ofs ≡ id
    → IsPlace o ofs fdn id start
    → IsPlace o ofs
        (get_fdn_by_ofs o ofs)
        (page_id_of_ofs o ofs)
        (get_start_of_data_block o (get_fdn_by_ofs o ofs))
to_place o ofs fdn start id e f g h = rw (e, f, g) h

head-IsPlace :
    (o : Object) (ofs : ℕ)
    → Fits o
    → ofs < o.head_pages * o.pg_data_size
    → IsPlace o ofs
        (get_fdn_by_ofs o ofs)
        (page_id_of_ofs o ofs)
        (get_start_of_data_block o (get_fdn_by_ofs o ofs))
head-IsPlace o ofs v lt =
    let narrow : u32 (o.head_pages * o.pg_data_size) ≡ o.head_pages * o.pg_data_size =
      mod-eq_of_lt v.head_bytes in
    let first : ltb ofs (o.head_pages * o.pg_data_size) ≡ true = ground arith in
    let page = ofs / o.pg_data_size in
    let below : page < o.head_pages = (div-lt_iff_lt-mul v.some_data).1 lt in
    let whole = div-add-mod ofs o.pg_data_size in
    let small : u16 page ≡ page = (let h = v.head in omega arith) in
    let next : u16 (page + 1) ≡ page + 1 = (let h = v.head in omega arith) in
    let fdn : get_fdn_by_ofs o ofs ≡ 0 = unfold get_fdn_by_ofs in rw (narrow, first) refl in
    let start : get_start_of_data_block o 0 ≡ 0 = unfold get_start_of_data_block in refl in
    let zero_start : ofs - 0 ≡ ofs = omega arith in
    let id : page_id_of_ofs o ofs ≡ page + 1 =
      place_of o ofs 0 0 fdn start
      ∙ ap (λ k. u16 (u16 (k / o.pg_data_size) + 1)) zero_start
      ∙ ap (λ k. u16 (k + 1)) small
      ∙ next in
    let back : page + 1 - 1 ≡ page = omega arith in
    to_place o ofs 0 0 (page + 1) fdn start id (
      ap (λ k. 0 + k * o.pg_data_size + ofs % o.pg_data_size) back
          ∙ ap (λ k. 0 + k + ofs % o.pg_data_size) (mul_comm page o.pg_data_size)
          ∙ omega arith,
      inl (refl, omega arith, omega arith),
    )

data-IsPlace :
    (o : Object) (ofs : ℕ)
    → Fits o
    → o.head_pages * o.pg_data_size ≤ ofs
    → ofs < 4294967296
    → (ofs - o.head_pages * o.pg_data_size) / (o.pg_data_size * o.pages_per_block) + 1 < 65536
    → IsPlace o ofs
        (get_fdn_by_ofs o ofs)
        (page_id_of_ofs o ofs)
        (get_start_of_data_block o (get_fdn_by_ofs o ofs))
data-IsPlace o ofs v le small few =
    let head = o.head_pages * o.pg_data_size in
    let size = o.pg_data_size * o.pages_per_block in
    let q = (ofs - head) / size in
    let narrow : u32 head ≡ head = mod-eq_of_lt v.head_bytes in
    let later : ltb ofs head ≡ false = ground arith in
    let block : u16 (q + 1) ≡ q + 1 = mod-eq_of_lt few in
    let fdn : get_fdn_by_ofs o ofs ≡ q + 1 = unfold get_fdn_by_ofs in rw (narrow, later) block in
    let before = div-mul-le_self (ofs - head) size in
    let fits : u32 (head + q * size) ≡ head + q * size = mod-eq_of_lt (omega arith) in
    let other : (q + 1 == 0) ≡ false = ground arith in
    let back : q + 1 - 1 ≡ q = omega arith in
    let start : get_start_of_data_block o (q + 1) ≡ head + q * size =
      unfold get_start_of_data_block in rw (other, back) fits in
    let inner = ofs - (head + q * size) in
    let page = inner / o.pg_data_size in
    let split = div-add-mod (ofs - head) size in
    let swap = mul_comm q size in
    let rest : inner ≡ (ofs - head) % size = omega arith in
    let some_size : 0 < size = mul-pos v.some_data v.some_pages in
    let inside : inner < size = rw rest (mod-lt (ofs - head) some_size) in
    let below : page < o.pages_per_block =
      (div-lt_iff_lt-mul v.some_data).1
        (let turn = mul_comm o.pg_data_size o.pages_per_block in omega arith) in
    let page_small : u16 page ≡ page = (let h = v.pages in omega arith) in
    let id : page_id_of_ofs o ofs ≡ page =
      place_of o ofs (q + 1) (head + q * size) fdn start ∙ (rw other page_small) in
    let whole = div-add-mod inner o.pg_data_size in
    let aligned : ofs % o.pg_data_size ≡ inner % o.pg_data_size =
      ap (λ k. k % o.pg_data_size)
        (let turn : q * size ≡ o.pg_data_size * (o.pages_per_block * q) =
            swap ∙ mul_assoc o.pg_data_size o.pages_per_block q in
          let sum : ofs ≡ inner + head + o.pg_data_size * (o.pages_per_block * q) = omega arith in
          sum)
      ∙ add-mul-mod_self_left (inner + head) o.pg_data_size (o.pages_per_block * q)
      ∙ add-mul-mod_self_right inner o.head_pages o.pg_data_size in
    to_place o ofs (q + 1) (head + q * size) page fdn start id (
      rw (other, aligned) (let turn = mul_comm page o.pg_data_size in omega arith),
      inr (omega arith, below),
    )

-- For sizes that fit the types of C, a file offset below 2 to the 32 and a block number below
-- 65536, the block, its start and the page id that uffs_ReadObject computes are right: the start,
-- the pages before the page and the offset in the page add up to the offset, the page id is 1 to
-- the number of data pages in the block of the file, and below the number of pages in any other
-- block.
pub page_id_of_ofs-IsPlace :
    (o : Object) (ofs : ℕ)
    → Fits o
    → ofs < 4294967296
    → (ofs - o.head_pages * o.pg_data_size) / (o.pg_data_size * o.pages_per_block) + 1 < 65536
    → IsPlace o ofs
        (get_fdn_by_ofs o ofs)
        (page_id_of_ofs o ofs)
        (get_start_of_data_block o (get_fdn_by_ofs o ofs))
page_id_of_ofs-IsPlace o ofs v small few =
    elim (Bool-cases (ltb ofs (o.head_pages * o.pg_data_size))) [
      | inl t ↦ head-IsPlace o ofs v (ground arith)
      | inr f ↦ data-IsPlace o ofs v (ground arith) small few
    ]
