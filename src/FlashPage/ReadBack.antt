-- ===== src/FlashPage/ReadBack.antt =====
-- A page that was written by src/uffs_flash.c with software ECC is read back.
use esp_uffs.Prelude.{
  ℕ, zero, suc, ◌+◌, ◌-◌, ◌*◌, ◌/◌, ◌<◌, ◌≤◌, ◌≡◌, refl, sym, ◌∙◌, ap, ap₂, subst, List, [], ◌∷◌,
  true, false, none, some, ◌==◌, if◌then◌else◌, length, get_or, drop, take, length-drop,
  length-append, arith,
}
use esp_uffs.Prelude.Words.{AreBytes}
use esp_uffs.Pool.{Pool, pool_get, pool_put, pool_verify}
use esp_uffs.Pool.Chain.{IsPool}
use esp_uffs.Pool.Walk.{pool_get-IsPool, pool_put-IsPool}
use esp_uffs.Ecc.{ecc_make, ecc_make_loop, ecc_make_chunk256, fixed}
use esp_uffs.Ecc.Whole.{Hit, damage, AllInChunk, count, ecc_correct-damage}
use esp_uffs.BadBlock.{FlashResult, no_err, ecc_ok}
use esp_uffs.BlockInfo.{Tags, flash_have_err}
use esp_uffs.TagStore.{slice, of_list, tag_bytes}
use esp_uffs.Flash.{
  Bytes, StorageAttr, ecc_soft, nominal_ecc_size, flash_make_spare, flash_unload_spare, unload_loop,
}
use esp_uffs.Flash.Place.{place, unload_first}
use esp_uffs.Flash.Spare.{Fits, flash_make_spare-ecc}
use esp_uffs.FlashPage.{
  PageRead, Wanted, read_page, write_page, corrected, hide_not_sealed, RawPage, write_raw, page_ecc,
  flash_read_page, check_page, read_raw, stored_ecc,
}

length-chunk : (xs : List ℕ) → length (ecc_make_chunk256 xs) ≡ 3
unfolding ecc_make_chunk256
length-chunk xs = refl

length-ecc_make_loop :
    (fuel : ℕ) (xs : List ℕ)
    → length xs ≤ fuel
    → length (ecc_make_loop fuel xs) ≡ 3 * ((length xs + 255) / 256)
unfolding ecc_make_loop
length-ecc_make_loop zero [] h = omega arith
length-ecc_make_loop zero (x ∷ xs) h = absurd (omega arith)
length-ecc_make_loop (suc fuel) [] h = omega arith
length-ecc_make_loop (suc fuel) (x ∷ xs) h =
    let later =
      length-ecc_make_loop fuel (drop 256 (x ∷ xs)) (omega (arith, length-drop 256 (x ∷ xs))) in
    omega (
      arith,
      later,
      length-drop 256 (x ∷ xs),
      length-chunk (take 256 (x ∷ xs)),
      length-append (ecc_make_chunk256 (take 256 (x ∷ xs)))
          (ecc_make_loop fuel (drop 256 (x ∷ xs))),
    )

slice-list :
    (b : Bytes) (from : ℕ) (xs : List ℕ)
    → ((i : ℕ) → i < length xs → b (from + i) ≡ get_or xs i 0)
    → slice b from (length xs) ≡ xs
unfolding slice
slice-list b from [] h = refl
slice-list b from (x ∷ xs) h =
    ap₂ ◌∷◌ (ap b (omega arith) ∙ h 0 (omega arith))
      (slice-list b (from + 1) xs (λ i hi. ap b (omega arith) ∙ h (suc i) (omega arith)))

-- A free buffer is taken and put back.
pub pool_verify-pool_get :
    (pool : Pool) (p : ℕ) → pool_verify (pool_get pool).1 p ≡ pool_verify pool p
unfolding pool_get pool_verify
pool_verify-pool_get pool p = ground arith

pub get-ne :
    (pool : Pool) (x : ℕ) (xs : List ℕ) → IsPool pool (x ∷ xs) → ((pool_get pool).0 == 0) ≡ false
get-ne pool x xs v =
    let (it, good, out, rest) = pool_get-IsPool pool x xs v in let real = v.chain.1 in ground arith

abbrev pub wanted : Wanted
wanted = record { page = true; ecc = true; spare = true; ecc_store = false }

-- The pool after a buffer was taken and put back.
abbrev pub get_put : Pool → Pool
get_put pool = (pool_put (pool_get pool).1 (pool_get pool).0).1

pub pool_verify-get_put : (pool : Pool) (p : ℕ) → pool_verify (get_put pool) p ≡ pool_verify pool p
unfolding pool_get pool_put pool_verify
pool_verify-get_put pool p = ground arith

pub get-put-IsPool :
    (pool : Pool) (x : ℕ) (xs : List ℕ) → IsPool pool (x ∷ xs) → IsPool (get_put pool) (x ∷ xs)
get-put-IsPool pool x xs v =
    let (it, good, out, rest) = pool_get-IsPool pool x xs v in
    let back =
      (pool_put-IsPool (pool_get pool).1 xs x rest (pool_verify-pool_get pool x ∙ good) out).1 in
    subst (λ a. IsPool (pool_put (pool_get pool).1 a).1 (x ∷ xs)) (sym it) back

-- A driver without a layout of its own, on one page: it takes what it is given, and gives it back
-- with flips in the page, at most one in each 256 bytes.
pub record Keeps {Chip : Type 0} (f : Chip → ℕ → ℕ → List ℕ → Bytes → FlashResult × Chip)
    (g : Chip → ℕ → ℕ → Wanted → PageRead) (chip : Chip) (block page spare_data_size : ℕ)
    (es : List Hit) : Type 0 where
  pub accepted : (bytes : List ℕ) (spare : Bytes) → (f chip block page bytes spare).0 ≡ no_err
  pub no_error :
      (bytes : List ℕ) (spare : Bytes) (w : Wanted)
      → (g (f chip block page bytes spare).1 block page w).result ≡ no_err
  pub same_page :
      (bytes : List ℕ) (spare : Bytes) (w : Wanted)
      → (g (f chip block page bytes spare).1 block page w).page ≡ damage es bytes
  pub same_spare :
      (bytes : List ℕ) (spare : Bytes) (w : Wanted) (i : ℕ)
      → i < spare_data_size
      → (g (f chip block page bytes spare).1 block page w).spare i ≡ spare i

-- The code that was put in a spare area is found there again.
stored :
    (attr : StorageAttr) (ecc_layout data_layout code : List ℕ) (n : ℕ)
    (ts ecc_store spare read : Bytes)
    → attr.ecc_layout ≡ some ecc_layout
    → attr.data_layout ≡ some data_layout
    → Fits ecc_layout data_layout attr.ecc_size
    → ((i : ℕ) → i < attr.ecc_size → place ecc_layout i < n)
    → length code ≤ attr.ecc_size
    → ((i : ℕ) → i < n → read i ≡ flash_make_spare attr n ts (some (of_list code)) spare i)
    → stored_ecc (flash_unload_spare attr read none (some ecc_store)).1 (length code) ≡ code
unfolding stored_ecc flash_unload_spare of_list
stored attr ecc_layout data_layout code n ts ecc_store spare read he hd v within room same = rw he (
    slice-list (unload_loop ecc_layout read attr.ecc_size ecc_store 0) 0 code (λ i hi.
      let lt : i < attr.ecc_size = omega arith in
      ap (unload_loop ecc_layout read attr.ecc_size ecc_store 0) (omega arith)
      ∙ unload_first ecc_layout read attr.ecc_size ecc_store i v.ecc_holds lt
      ∙ same (place ecc_layout i) (within i lt)
      ∙ flash_make_spare-ecc attr ecc_layout data_layout n ts (of_list code) spare i he hd v lt))

pub AreBytes-drop : (n : ℕ) (xs : List ℕ) → AreBytes xs → AreBytes (drop n xs)
AreBytes-drop zero xs h = h
AreBytes-drop (suc n) [] h = tt
AreBytes-drop (suc n) (x ∷ xs) h = AreBytes-drop n xs h.1

after-count :
    (n : ℕ) (bytes : List ℕ)
    → corrected (fixed n, some bytes) no_err bytes ≡ ((if n == 0 then no_err else ecc_ok), bytes)
unfolding corrected
after-count zero bytes = refl
after-count (suc n) bytes = ground arith

-- A page read with flips that its code repairs.
checked :
    (attr : StorageAttr) (bytes : List ℕ) (es : List Hit) (r : RawPage)
    → attr.ecc_opt ≡ ecc_soft
    → AreBytes bytes
    → AllInChunk es bytes
    → r.result ≡ no_err
    → r.page ≡ damage es bytes
    → r.store ≡ ecc_make (some bytes) true
    → check_page attr false r ≡ ((if count es == 0 then no_err else ecc_ok), bytes)
unfolding check_page flash_have_err corrected hide_not_sealed
checked attr bytes es r soft ok inside e1 e2 e3 =
    rw (soft, e1, e2, e3, ecc_correct-damage es bytes ok inside) (after-count (count es) bytes)

module _ {Chip : Type 0} (attr : StorageAttr) (spare_data_size : ℕ) (soft : attr.ecc_opt ≡ ecc_soft)
    (by_uffs : attr.layout_by_flash ≡ false)
    (f : Chip → ℕ → ℕ → List ℕ → Bytes → FlashResult × Chip) (g : Chip → ℕ → ℕ → Wanted → PageRead)
    (chip : Chip) (block page : ℕ) (es : List Hit)
    (k : Keeps f g chip block page spare_data_size es) where
  -- What the driver gets for a page.
  pub write_raw-soft :
      (headed ecc_buf : List ℕ) (ready : Tags) (spare : Bytes)
      → write_raw attr
          (write_page f)
          spare_data_size
          chip
          block
          page
          headed
          (page_ecc attr.ecc_opt headed ecc_buf)
          ready
          spare
        ≡ f chip block page headed (
            flash_make_spare attr spare_data_size
              (of_list (tag_bytes ready))
              (some (of_list (ecc_make (some headed) true)))
              spare)
  unfolding write_raw page_ecc
  write_raw-soft headed ecc_buf ready spare = rw (soft, by_uffs) refl

  -- The page that the driver was given is read back.
  pub flash_read_page-write_raw :
      (ecc_layout data_layout : List ℕ) (he : attr.ecc_layout ≡ some ecc_layout)
      (hd : attr.data_layout ≡ some data_layout) (v : Fits ecc_layout data_layout attr.ecc_size)
      (within : (i : ℕ) → i < attr.ecc_size → place ecc_layout i < spare_data_size - 1)
      (room : nominal_ecc_size attr ≤ attr.ecc_size) (headed old : List ℕ) (ready : Tags)
      (spare ecc_store : Bytes) (pool : Pool) (x : ℕ) (xs : List ℕ)
      → AreBytes headed
      → AllInChunk es headed
      → length headed ≡ attr.page_data_size
      → 4 ≤ attr.page_data_size
      → IsPool pool (x ∷ xs)
      → let made =
          flash_make_spare attr spare_data_size
            (of_list (tag_bytes ready))
            (some (of_list (ecc_make (some headed) true)))
            spare in
        flash_read_page attr
          (read_page g)
          (f chip block page headed made).1
          block
          page
          old
          false
          ecc_store
          pool
        ≡ ((if count es == 0 then no_err else ecc_ok), headed, get_put pool)
  unfolding flash_read_page
  flash_read_page-write_raw ecc_layout data_layout he hd v within room headed old ready spare
        ecc_store pool x xs headed_ok inside len size free =
      let made =
        flash_make_spare attr spare_data_size (of_list (tag_bytes ready))
          (some (of_list (ecc_make (some headed) true))) spare in
      let code_length : length (ecc_make (some headed) true) ≡ nominal_ecc_size attr =
        unfold ecc_make nominal_ecc_size in
        omega (arith, length-ecc_make_loop (length headed) headed (omega arith), len, size) in
      let chip' = (f chip block page headed made).1 in
      let raw = read_raw attr (read_page g) chip' block page false ecc_store in
      let store : raw.store ≡ ecc_make (some headed) true =
        unfold read_raw in
        ap
          (stored_ecc
            (flash_unload_spare attr (g chip' block page wanted).spare none (some ecc_store)).1)
          (sym code_length)
        ∙ stored attr ecc_layout data_layout (ecc_make (some headed) true) spare_data_size
            (of_list (tag_bytes ready)) ecc_store spare (g chip' block page wanted).spare he hd v
            (λ i hi. omega (arith, within i hi)) (omega arith) (k.same_spare headed made wanted) in
      rw
        (
          checked attr headed es raw soft headed_ok inside
              (unfold read_raw in k.no_error headed made wanted)
              (unfold read_raw in k.same_page headed made wanted) store,
          get-ne pool x xs free,
        )
        refl
