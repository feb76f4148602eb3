-- ===== src/File/Page.antt =====
-- src/uffs_fs.c: what one round of reading an object gives.
use esp_uffs.Prelude.{
  ℕ, ◌+◌, ◌-◌, ◌%◌, ◌<◌, ◌≤◌, ◌≡◌, refl, sym, ◌∙◌, ap, subst, ◌++◌, true, false, not, ◌&&◌, ◌||◌,
  Option, none, some, ltb, leb, ◌==◌, inl, inr, arith, Bool-cases,
}
use esp_uffs.Prelude.Words.{u32}
use esp_uffs.Flash.{Bytes}
use esp_uffs.TagStore.{slice}
use esp_uffs.Buf.{Buf}
use esp_uffs.DirtyBuf.{read_size}
use esp_uffs.File.{
  Object, PageCalls, get_fdn_by_ofs, page_id_of_ofs, Reading, read_page, read_round,
}
use esp_uffs.File.Slice.{slice_same, read_size_inside}

module _ {D : Type 0} (calls : PageCalls D) (o : Object) (holds : D → Type 0) (file : Bytes) where
  -- The page of offset `x`, as the buffers hold it in a state where the file is intact.
  abbrev pub PageOf : ℕ → Option Buf × D → Type 0
  PageOf x r =
      (b : Buf) × (r.0 ≡ some b)
      × holds (calls.buf_put (r.1))
      × (x % o.pg_data_size < b.data_len)
      × (b.data_len ≤ o.pg_data_size)
      × (x + b.data_len ≤ o.file_len + x % o.pg_data_size)
      × ((j : ℕ)
          → x % o.pg_data_size + j < b.data_len
          → b.content (x % o.pg_data_size + j) ≡ file (x + j))

  -- The file is intact: every data node and every page up to the end of the file can be got, and the
  -- pages hold its bytes.
  pub record IsIntact : Type 0 where
    pub node :
        (d : D) (x : ℕ)
        → holds d
        → x < o.file_len
        → (get_fdn_by_ofs o x == 0) || calls.has_data_node d (get_fdn_by_ofs o x) ≡ true
    pub page :
        (d : D) (x : ℕ)
        → holds d
        → x < o.file_len
        → PageOf x (calls.buf_get_ex d (get_fdn_by_ofs o x) (page_id_of_ofs o x))

  -- `n` bytes were read from `x` on.
  abbrev pub Got : ℕ → Reading D → ℕ → Reading D → Type 0
  Got x r n r' =
      (r'.remain + n ≡ r.remain)
      × (r'.bytes ≡ r.bytes ++ slice file x n)
      × (r'.err ≡ r.err)
      × holds r'.dev
      × (x + n ≤ o.file_len)

  -- A page that is there gives bytes up to its end.
  read_some-Got :
      (x : ℕ) (r : Reading D) (b : Buf) (dev : D)
      → PageOf x (some b, dev)
      → 0 < r.remain
      → r.remain + o.pg_data_size < 4294967296
      → let s = read_page calls o x r (some b, dev) in
        (s.0 ≡ true) × (n : ℕ) × (0 < n) × Got x r n (s.1)
  unfolding read_page
  read_some-Got x r b dev (b', e, h, inside, le, fits, same) some_bytes small =
      let at : b' ≡ b = ap (λ y. elim y [ none ↦ b | some z ↦ z ]) (sym e) in
      let ofs = x % o.pg_data_size in
      let inside' : ofs < b.data_len = subst (λ (y : Buf). ofs < y.data_len) at inside in
      let le' : b.data_len ≤ o.pg_data_size =
        subst (λ (y : Buf). y.data_len ≤ o.pg_data_size) at le in
      let fits' : x + b.data_len ≤ o.file_len + ofs =
        subst (λ (y : Buf). x + y.data_len ≤ o.file_len + ofs) at fits in
      let same' : (j : ℕ) → ofs + j < b.data_len → b.content (ofs + j) ≡ file (x + j) =
        subst (λ (y : Buf). (j : ℕ) → ofs + j < y.data_len → y.content (ofs + j) ≡ file (x + j)) at
          same in
      let wide : u32 (r.remain + ofs) ≡ r.remain + ofs = omega arith in
      let more : leb b.data_len ofs ≡ false = ground arith in
      let taken : (n : ℕ)
          → 0 < n
          → ofs + n ≤ b.data_len
          → slice b.content ofs (read_size o.pg_data_size ofs n) ≡ slice file x n =
        λ n pos in_page.
          ap (λ k. slice b.content ofs k)
            (read_size_inside o.pg_data_size ofs n pos (omega arith) (omega arith))
          ∙ slice_same b.content file ofs x n (λ j lt. same' j (omega arith)) in
      rw (more, wide)
        (elim (Bool-cases (ltb b.data_len (r.remain + ofs))) [
          | inl t ↦
              let cut : b.data_len < r.remain + ofs = ground arith in
              rw t (
                refl,
                b.data_len - ofs,
                omega arith,
                (
                  omega arith,
                  ap (λ l. r.bytes ++ l) (taken (b.data_len - ofs) (omega arith) (omega arith)),
                  refl,
                  h,
                  omega arith,
                ),
              )
          | inr f ↦
              let whole : r.remain + ofs ≤ b.data_len = ground arith in
              rw f (
                refl,
                r.remain,
                some_bytes,
                (
                  omega arith,
                  ap (λ l. r.bytes ++ l) (taken r.remain some_bytes (omega arith)),
                  refl,
                  h,
                  omega arith,
                ),
              )
        ])

  pub read_round-Got :
      (x : ℕ) (r : Reading D)
      → IsIntact
      → holds r.dev
      → x < o.file_len
      → 0 < r.remain
      → r.remain + o.pg_data_size < 4294967296
      → let s = read_round calls o x r in (s.0 ≡ true) × (n : ℕ) × (0 < n) × Got x r n (s.1)
  unfolding read_round
  read_round-Got x r v h inside some_bytes small =
      let fdn = get_fdn_by_ofs o x in
      let got = calls.buf_get_ex r.dev fdn (page_id_of_ofs o x) in
      let page = v.page r.dev x h inside in
      let known = v.node r.dev x h inside in
      let on : (r.remain == 0) || leb o.file_len x ≡ false =
        (let a : (r.remain == 0) ≡ false = ground arith in
          let b : leb o.file_len x ≡ false = ground arith in rw (a, b) refl) in
      let there : not (fdn == 0) && not (calls.has_data_node r.dev fdn) ≡ false =
        elim (Bool-cases (fdn == 0)) [
          | inl t ↦ rw t refl
          | inr f ↦
              let node : calls.has_data_node r.dev fdn ≡ true = rw f at known in rw (f, node) refl
        ] in
      let as_some : got ≡ (some (page.0), got.1) = ap (λ y. (y, got.1)) (page.1) in
      rw (on, there)
        (subst
          (λ g.
            let s = read_page calls o x r g in (s.0 ≡ true) × (n : ℕ) × (0 < n) × Got x r n (s.1))
          (sym as_some)
          (read_some-Got x r (page.0) (got.1) (subst (λ g. PageOf x g) as_some page) some_bytes
            small))
