-- ===== src/File/Read.antt =====
-- src/uffs_fs.c: what reading an object gives.
use mathlib.Core.List.{append-nil, append_assoc}
use esp_uffs.Prelude.{
  ℕ, zero, suc, ◌+◌, ◌-◌, ◌<◌, ◌≤◌, ◌≡◌, refl, sym, ◌∙◌, ap, ap₂, subst, [], ◌++◌, Bool, true,
  false, ◌||◌, none, ltb, leb, ◌==◌, ◌⊎◌, inl, inr, arith, Bool-cases, bit_and,
}
use esp_uffs.Prelude.Words.{u32}
use esp_uffs.Flash.{Bytes}
use esp_uffs.TagStore.{slice}
use esp_uffs.Flush.{type_dir}
use esp_uffs.File.{
  Object, PageCalls, wronly, Reading, read_round, go_on, read_loop, read_object, end_read,
  read_refused,
}
use esp_uffs.File.Slice.{slice_add}
use esp_uffs.File.Page.{IsIntact, Got, read_round-Got}

module _ {D : Type 0} (calls : PageCalls D) (o : Object) (holds : D → Type 0) (file : Bytes) where
  -- Reading on from `x` gives all bytes that are left to read, or those up to the end of the file.
  abbrev ReadOn : ℕ → Reading D → Reading D → Type 0
  ReadOn x r r' =
      (n : ℕ) × Got calls o holds file x r n r' × ((r'.remain ≡ 0) ⊎ (x + n ≡ o.file_len))

  nothing : (x : ℕ) (r : Reading D) → holds r.dev → x ≤ o.file_len → Got calls o holds file x r 0 r
  unfolding slice
  nothing x r h le = (omega arith, sym (append-nil r.bytes), refl, h, omega arith)

  go_on-true : (s : Bool × Reading D) (later : Reading D) → s.0 ≡ true → go_on calls s later ≡ later
  unfolding go_on
  go_on-true (true, r) later e = refl
  go_on-true (false, r) later e = cc

  read_round-stop :
      (x : ℕ) (r : Reading D)
      → (r.remain == 0) || leb o.file_len x ≡ true
      → read_round calls o x r ≡ (false, r)
  unfolding read_round
  read_round-stop x r stop = rw stop refl

  read_loop-next :
      (len fuel x : ℕ) (r : Reading D)
      → u32 (o.position + len - r.remain) ≡ x
      → let s = read_round calls o x r in
        read_loop calls o len (suc fuel) r ≡ go_on calls s (read_loop calls o len fuel (s.1))
  read_loop-next len fuel x r start =
      unfold read_loop in
      ap (λ y. let s = read_round calls o y r in go_on calls s (read_loop calls o len fuel (s.1)))
        start

  ReadOn-Got :
      (x n : ℕ) (r s r' : Reading D)
      → Got calls o holds file x r n s
      → ReadOn (x + n) s r'
      → ReadOn x r r'
  ReadOn-Got x n r s r' (a, b, c, d, e) (m, (a', b', c', d', e'), end) = (
    n + m,
    (
      omega arith,
      b'
          ∙ ap (λ l. l ++ slice file (x + n) m) b
          ∙ append_assoc r.bytes (slice file x n) (slice file (x + n) m)
          ∙ ap (λ l. r.bytes ++ l) (sym (slice_add file x n m)),
      c' ∙ c,
      d',
      omega arith,
    ),
    (elim end [ inl z ↦ inl z | inr z ↦ inr (omega arith) ]),
  )

  read_loop-ReadOn :
      (len fuel x : ℕ) (r : Reading D)
      → IsIntact calls o holds file
      → holds r.dev
      → r.remain ≤ fuel
      → r.remain ≤ len
      → x + r.remain ≡ o.position + len
      → x ≤ o.file_len
      → o.position + len + o.pg_data_size < 4294967296
      → ReadOn x r (read_loop calls o len fuel r)
  read_loop-ReadOn len zero x r v h enough most at le small =
      unfold read_loop in (0, nothing x r h le, inl (omega arith))
  read_loop-ReadOn len (suc fuel) x r v h enough most at le small =
      let start : u32 (o.position + len - r.remain) ≡ x = omega arith in
      let next = read_loop-next len fuel x r start in
      let later = read_loop calls o len fuel ((read_round calls o x r).1) in
      elim (Bool-cases ((r.remain == 0) || leb o.file_len x)) [
        | inl stop ↦
            let stopped : go_on calls (false, r) later ≡ r = unfold go_on in refl in
            let same = next ∙ ap (λ s. go_on calls s later) (read_round-stop x r stop) ∙ stopped in
            let end : (r.remain ≡ 0) ⊎ (x + 0 ≡ o.file_len) = elim (Bool-cases (r.remain == 0)) [
              | inl t ↦ inl (ground arith)
              | inr f ↦
                  let past : leb o.file_len x ≡ true = rw f at stop in
                  let ge : o.file_len ≤ x = ground arith in inr (omega arith)
            ] in
            subst (λ r'. ReadOn x r r') (sym same) (0, nothing x r h le, end)
        | inr on ↦
            let some_left : 0 < r.remain = ground arith in
            let inside : x < o.file_len = ground arith in
            let (go, n, pos, got) =
              read_round-Got calls o holds file x r v h inside some_left (omega arith) in
            let (left, bytes, err, h', le') = got in
            let rest =
              read_loop-ReadOn len fuel (x + n) ((read_round calls o x r).1) v h' (omega arith)
                (omega arith) (omega arith) le' small in
            subst (λ r'. ReadOn x r r') (sym (next ∙ go_on-true _ later go))
              (ReadOn-Got x n r _ later got rest)
      ]

  -- While every data node and every page up to the end of a file can be got and the pages hold the
  -- bytes of the file, and for a position up to the end of the file that with the length and a page
  -- size stays below 2 to the 32, uffs_ReadObject of an open file that is not write-only reads what
  -- a read of an array of bytes would: the bytes of the file from the position on, all that are
  -- asked for or those up to the end of the file; it returns their number, moves the position by it
  -- and changes nothing else of the object.
  pub read_object-slice :
      (len : ℕ) (dev : D)
      → IsIntact calls o holds file
      → holds dev
      → o.is_open ≡ true
      → (o.kind == type_dir) ≡ false
      → (bit_and o.oflag wronly == 0) ≡ true
      → o.position ≤ o.file_len
      → o.position + len + o.pg_data_size < 4294967296
      → let (count, bytes, o', dev') = read_object calls o len dev in
        (bytes ≡ slice file o.position count)
        × (count ≤ len)
        × (o.position + count ≤ o.file_len)
        × ((count ≡ len) ⊎ (o.position + count ≡ o.file_len))
        × (o' ≡ record o { position = o.position + count })
  read_object-slice len dev v h opened file_kind readable inside small =
      let r0 : Reading D = record { dev = dev; err = o.err; remain = len; bytes = [] } in
      let (n, (left, bytes, err, h', le), end) =
        read_loop-ReadOn len len o.position r0 v h (omega arith) (omega arith) (omega arith) inside
          small in
      let r = read_loop calls o len len r0 in
      let before : ltb o.file_len o.position ≡ false = ground arith in
      let count : len - r.remain ≡ n = omega arith in
      let wide : u32 (o.position + n) ≡ o.position + n = omega arith in
      let allowed : read_refused o ≡ none =
        unfold read_refused in rw (opened, file_kind, before, readable) refl in
      let facts =
        subst
          (λ k.
            (r.bytes ≡ slice file o.position k)
            × (k ≤ len)
            × (o.position + k ≤ o.file_len)
            × ((k ≡ len) ⊎ (o.position + k ≡ o.file_len))
            × (record o { err = r.err; position = u32 (o.position + k) }
                ≡ record o { position = o.position + k }))
          (sym count)
          (
            bytes,
            omega arith,
            le,
            (elim end [ inl z ↦ inl (omega arith) | inr z ↦ inr z ]),
            ap₂ (λ e p. record o { err = e; position = p }) err wide,
          ) in
      unfold read_object end_read in
      subst
        (λ refused.
          let (count, bytes, o', dev') = end_read calls o len dev r refused in
          (bytes ≡ slice file o.position count)
          × (count ≤ len)
          × (o.position + count ≤ o.file_len)
          × ((count ≡ len) ⊎ (o.position + count ≡ o.file_len))
          × (o' ≡ record o { position = o.position + count }))
        (sym allowed) facts
