-- ===== src/File/Seek.antt =====
-- src/uffs_fs.c: moving the position of an object, and reading from there.
use esp_uffs.Prelude.{
  ℕ, ◌+◌, ◌<◌, ◌≤◌, ◌≡◌, refl, sym, ◌∙◌, ap, subst, true, false, Option, some, none, ◌==◌, ◌⊎◌,
  arith, bit_and, ltb, if◌then◌else◌,
}
use esp_uffs.Prelude.Words.{u32}
use native.Mathlib.Nat.{mod-eq_of_lt}
use esp_uffs.MountTable.{ℤ, pos, negsuc, ◌+ℤ◌}
use esp_uffs.Flash.{Bytes}
use esp_uffs.TagStore.{slice}
use esp_uffs.Flush.{type_dir}
use esp_uffs.File.{
  Object, PageCalls, ue_no_err, wronly, get_fdn_by_ofs, page_id_of_ofs, get_start_of_data_block,
  read_object, Origin, use_cur, use_set, use_end, use_other, is_no_err, seek_to, seek_from,
  report_position, seek_object, to_long, wrap_long, add_long, ue_acces,
}
use esp_uffs.File.Page.{IsIntact}
use esp_uffs.File.Read.{read_object-slice}

-- Where an offset points to.
abbrev pub target : Object → ℤ → Origin → Option ℤ
target o offset use_cur = some (o.position +ℤ offset)
target o offset use_set = some offset
target o offset use_end = some (o.file_len +ℤ offset)
target o offset use_other = none

-- A number that fits a `long`.
to_long_small : (n : ℕ) → n < 2147483648 → to_long n ≡ pos n
unfolding to_long
to_long_small n small =
    let same : u32 n ≡ n = mod-eq_of_lt (omega arith) in
    let low : ltb n 2147483648 ≡ true = ground arith in rw (same, low) refl

add_long_small :
    (m : ℕ) (offset : ℤ) (k : ℕ)
    → m < 2147483648
    → k < 2147483648
    → m +ℤ offset ≡ pos k
    → add_long (to_long m) offset ≡ pos k
add_long_small m offset k small fits e =
    let sum : add_long (pos m) offset ≡ wrap_long (m +ℤ offset) = unfold add_long in refl in
    let wrapped : wrap_long (pos k) ≡ to_long k = unfold wrap_long in refl in
    ap (λ z. add_long z offset) (to_long_small m small)
    ∙ sum
    ∙ ap wrap_long e
    ∙ wrapped
    ∙ to_long_small k fits

given : Option ℤ → ℤ
given none = negsuc 0
given (some z) = z

seek_from-target :
    (o : Object) (offset : ℤ) (origin : Origin) (k : ℕ)
    → o.position < 2147483648
    → o.file_len < 2147483648
    → k < 2147483648
    → target o offset origin ≡ some (pos k)
    → seek_from o offset origin ≡ seek_to o (pos k)
unfolding seek_from given
seek_from-target o offset use_cur k p l fits e =
    ap (seek_to o) (add_long_small o.position offset k p fits (ap given e))
seek_from-target o offset use_set k p l fits e = ap (seek_to o) (ap given e)
seek_from-target o offset use_end k p l fits e =
    ap (seek_to o) (add_long_small o.file_len offset k l fits (ap given e))
seek_from-target o offset use_other k p l fits e = cc

module _ {D : Type 0} (calls : PageCalls D) (o : Object) (holds : D → Type 0) (file : Bytes) where
  moved-IsIntact :
      (k : ℕ) → IsIntact calls o holds file → IsIntact calls (record o { position = k }) holds file
  unfolding get_fdn_by_ofs page_id_of_ofs get_start_of_data_block
  moved-IsIntact k v = record { node = v.node; page = v.page }

  -- With a long of 32 bits, in an intact file that is open, not write-only and without an error,
  -- with a position and a length below 2 to the 31, uffs_SeekObject from the position, the start or
  -- the end, to a place up to the end of the file, returns that place, and uffs_ReadObject then
  -- gives the bytes of the file from there on, all that are asked for or those up to the end of the
  -- file, and leaves the position behind them; that place with the number of bytes that are asked
  -- for and a page size stays below 2 to the 31.
  pub read_object-seek_object :
      (offset : ℤ) (origin : Origin) (k len : ℕ) (dev : D)
      → IsIntact calls o holds file
      → holds dev
      → o.is_open ≡ true
      → (o.kind == type_dir) ≡ false
      → (bit_and o.oflag wronly == 0) ≡ true
      → o.err ≡ ue_no_err
      → o.position < 2147483648
      → o.file_len < 2147483648
      → target o offset origin ≡ some (pos k)
      → k ≤ o.file_len
      → k + len + o.pg_data_size < 2147483648
      → let (at, moved) = seek_object o offset origin in
        let (count, bytes, o', dev') = read_object calls moved len dev in
        (at ≡ pos k)
        × (bytes ≡ slice file k count)
        × (count ≤ len)
        × ((count ≡ len) ⊎ (k + count ≡ o.file_len))
        × (o' ≡ record o { position = k + count })
  read_object-seek_object offset origin k len dev v h opened file_kind readable clear p l e inside
        small =
      let wide : u32 k ≡ k = mod-eq_of_lt (omega arith) in
      let moved : Object = record o { position = k } in
      let placed : seek_to o (pos k) ≡ moved =
        unfold seek_to in ap (λ n. record o { position = n }) wide in
      let none_set : is_no_err ue_no_err ≡ true = unfold is_no_err in refl in
      let fine : is_no_err o.err ≡ true = ap is_no_err clear ∙ none_set in
      let fits : k < 2147483648 = omega arith in
      let told : report_position moved ≡ (pos k, moved) =
        unfold report_position in
        ap (λ b. (if b then to_long k else negsuc 0, moved)) fine
        ∙ ap (λ z. (z, moved)) (to_long_small k fits) in
      let same : seek_object o offset origin ≡ (pos k, moved) =
        unfold seek_object in
        ap report_position (
          ap (λ b. if b then record o { err = ue_acces } else seek_from o offset origin) file_kind
          ∙ seek_from-target o offset origin k p l fits e
          ∙ placed)
        ∙ told in
      let (bytes, count, in_file, end, after) =
        read_object-slice calls moved holds file len dev (moved-IsIntact k v) h opened file_kind
          readable inside (omega arith) in
      subst
        (λ s.
          let (at, moved) = s in
          let (count, bytes, o', dev') = read_object calls moved len dev in
          (at ≡ pos k)
          × (bytes ≡ slice file k count)
          × (count ≤ len)
          × ((count ≡ len) ⊎ (k + count ≡ o.file_len))
          × (o' ≡ record o { position = k + count }))
        (sym same) (refl, bytes, count, end, after)
