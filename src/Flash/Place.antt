-- ===== src/Flash/Place.antt =====
-- Where a layout of src/uffs_flash.c puts the bytes of a tag or of a code.
use esp_uffs.Prelude.{
  ℕ, ◌+◌, ◌-◌, ◌<◌, ◌≡◌, ◌≢◌, refl, sym, ◌∙◌, ap, List, [], ◌∷◌, false, ltb, if◌then◌else◌, arith,
  ◌⊎◌, inl, inr, subst, le_or_lt,
}
use esp_uffs.Flash.{Bytes, memcpy, at_most, unload_loop, load_loop}

-- The offset in the spare area of byte `i`.
abbrev pub place : List ℕ → ℕ → ℕ
place [] i = 0
place (ofs ∷ []) i = 0
place (ofs ∷ n ∷ rest) i = if ltb i n then ofs + i else place rest (i - n)

-- The segments hold at least `size` bytes.
abbrev pub Holds : List ℕ → ℕ → Type 0
Holds [] size = size ≡ 0
Holds (ofs ∷ []) size = size ≡ 0
Holds (ofs ∷ n ∷ rest) size = (size ≡ 0) ⊎ ((ofs ≢ 0xff) × Holds rest (size - n))

abbrev pub Apart : List ℕ → ℕ → Type 0
Apart layout size = (i j : ℕ) → i < size → j < size → place layout i ≡ place layout j → i ≡ j

-- Unloading writes the buffer from `at` on only.
unload_below :
    (layout : List ℕ) (spare : Bytes) (size : ℕ) (buf : Bytes) (at x : ℕ)
    → x < at
    → unload_loop layout spare size buf at x ≡ buf x
unfolding unload_loop
unload_below [] spare size buf at x h = refl
unload_below (ofs ∷ []) spare size buf at x h = refl
unload_below (ofs ∷ n ∷ rest) spare size buf at x h = ground (
  arith,
  unload_below rest spare (size - at_most n size) (memcpy buf at spare ofs (at_most n size))
      (at + at_most n size) x,
)

pub unload_loop-place :
    (layout : List ℕ) (spare : Bytes) (size : ℕ) (buf : Bytes) (at i : ℕ)
    → Holds layout size
    → i < size
    → unload_loop layout spare size buf at (at + i) ≡ spare (place layout i)
unfolding unload_loop
unload_loop-place [] spare size buf at i h lt = absurd (omega arith)
unload_loop-place (ofs ∷ []) spare size buf at i h lt = absurd (omega arith)
unload_loop-place (ofs ∷ n ∷ rest) spare size buf at i (inl h) lt = absurd (omega arith)
unload_loop-place (ofs ∷ n ∷ rest) spare size buf at i (inr (real, h)) lt =
    let k = at_most n size in
    let next = memcpy buf at spare ofs k in
    elim (le_or_lt n i) [
      | inl past ↦
          let all : k ≡ n = unfold at_most in ground arith in
          ground (
            arith,
            all,
            unload_loop-place rest spare (size - k) next (at + k) (i - n)
                (subst (λ m. Holds rest (size - m)) (sym all) h) (omega arith),
          )
      | inr here ↦
          unfold at_most memcpy in
          ground (arith, unload_below rest spare (size - k) next (at + k) (at + i))
    ]

-- What is left of the size behind a segment.
left : (n size : ℕ) → size - n ≡ size - at_most n size
unfolding at_most
left n size = ground arith

place_behind : (ofs n : ℕ) (rest : List ℕ) (i : ℕ) → place (ofs ∷ n ∷ rest) (n + i) ≡ place rest i
place_behind ofs n rest i =
    let test : ltb (n + i) n ≡ false = ground arith in rw test (ap (place rest) (omega arith))

-- Loading writes to the places of the layout only.
pub load_elsewhere :
    (layout : List ℕ) (src : Bytes) (at size : ℕ) (spare : Bytes) (x : ℕ)
    → Holds layout size
    → ((i : ℕ) → i < size → place layout i ≢ x)
    → load_loop layout src at size spare x ≡ spare x
unfolding load_loop
load_elsewhere [] src at size spare x h out = refl
load_elsewhere (ofs ∷ []) src at size spare x h out = refl
load_elsewhere (ofs ∷ n ∷ rest) src at size spare x (inl h) out = ground arith
load_elsewhere (ofs ∷ n ∷ rest) src at size spare x (inr (real, h)) out =
    let k = at_most n size in
    let later =
      load_elsewhere rest src (at + k) (size - k) (memcpy spare ofs src at k) x
        (subst (Holds rest) (left n size) h)
        (λ i lt e. out (n + i) (unfold at_most in ground arith) (place_behind ofs n rest i ∙ e)) in
    let outside : memcpy spare ofs src at k x ≡ spare x =
      unfold at_most memcpy in ground (arith, out (x - ofs)) in
    ground (arith, later, outside)

pub load_loop-place :
    (layout : List ℕ) (src : Bytes) (at size : ℕ) (spare : Bytes) (i : ℕ)
    → Holds layout size
    → Apart layout size
    → i < size
    → load_loop layout src at size spare (place layout i) ≡ src (at + i)
unfolding load_loop
load_loop-place [] src at size spare i h apart lt = absurd (omega arith)
load_loop-place (ofs ∷ []) src at size spare i h apart lt = absurd (omega arith)
load_loop-place (ofs ∷ n ∷ rest) src at size spare i (inl h) apart lt = absurd (omega arith)
load_loop-place (ofs ∷ n ∷ rest) src at size spare i (inr (real, h)) apart lt =
    let k = at_most n size in
    let next = memcpy spare ofs src at k in
    let holds = subst (Holds rest) (left n size) h in
    elim (le_or_lt n i) [
      | inl past ↦
          let all : k ≡ n = unfold at_most in ground arith in
          let later =
            load_loop-place rest src (at + k) (size - k) next (i - n) holds
              (λ a b la lb e.
                let same =
                  apart (n + a) (n + b) (omega (arith, all)) (omega (arith, all))
                    (place_behind ofs n rest a ∙ e ∙ sym (place_behind ofs n rest b)) in
                omega (arith, same))
              (omega (arith, all)) in
          ground (arith, all, later)
      | inr here ↦
          let small : i < k = unfold at_most in ground arith in
          let start : place (ofs ∷ n ∷ rest) i ≡ ofs + i = ground arith in
          let later = load_elsewhere rest src (at + k) (size - k) next (ofs + i) holds (λ j lj e.
            let jn : n + j < size = unfold at_most in ground arith in
            let same = apart (n + j) i jn lt (place_behind ofs n rest j ∙ e ∙ sym start) in
            absurd (omega (arith, same))) in
          unfold memcpy in ground (arith, later)
    ]

pub unload_first :
    (layout : List ℕ) (spare : Bytes) (size : ℕ) (buf : Bytes) (i : ℕ)
    → Holds layout size
    → i < size
    → unload_loop layout spare size buf 0 i ≡ spare (place layout i)
unload_first layout spare size buf i h lt =
    ap (unload_loop layout spare size buf 0) (omega arith)
    ∙ unload_loop-place layout spare size buf 0 i h lt

pub load_first :
    (layout : List ℕ) (src : Bytes) (size : ℕ) (spare : Bytes) (i : ℕ)
    → Holds layout size
    → Apart layout size
    → i < size
    → load_loop layout src 0 size spare (place layout i) ≡ src i
load_first layout src size spare i h apart lt =
    load_loop-place layout src 0 size spare i h apart lt ∙ ap src (omega arith)
