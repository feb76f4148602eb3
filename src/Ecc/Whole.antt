-- ===== src/Ecc/Whole.antt =====
-- `uffs_EccMake` and `uffs_EccCorrect` of src/uffs_ecc.c over data of any length, chunk by chunk.
use esp_uffs.Prelude.{
  subst, le_or_lt, length-append, ℕ, zero, suc, ◌+◌, ◌<◌, ◌≤◌, min, ◌≡◌, refl, sym, ◌∙◌, ap, ap₂,
  ◌⊎◌, inl, inr, List, [], ◌∷◌, ◌++◌, true, Option, none, some, arith, length, take, drop,
  length-take, length-drop, take-append, take-append-drop,
}
use esp_uffs.Prelude.Words.{AreBytes}
use esp_uffs.Ecc.{
  ecc_make_chunk256, Fix, fixed, flip, ecc_correct_chunk256, ecc_make_loop, continue_with,
  ecc_correct_loop, ecc_make, ecc_correct,
}
use esp_uffs.Ecc.Linear.{length-flip}
use esp_uffs.Ecc.Chunk.{ecc_correct_chunk256-same, ecc_correct_chunk256-flip}

-- An error of one chunk: none, or the flipped bit `k` of byte `j`.
abbrev pub Hit : Type 0
Hit = Option (ℕ × ℕ)

abbrev pub hit : Hit → List ℕ → List ℕ
hit none c = c
hit (some (j, k)) c = flip c j k

abbrev pub InChunk : Hit → List ℕ → Type 0
InChunk none c = Unit {0}
InChunk (some (j, k)) c = (j < length c) × (k < 8)

abbrev pub weight : Hit → ℕ
weight none = 0
weight (some p) = 1

-- Data with at most one error in each chunk of 256 bytes.
abbrev pub damage : List Hit → List ℕ → List ℕ
damage [] xs = xs
damage (e ∷ es) xs = hit e (take 256 xs) ++ damage es (drop 256 xs)

abbrev pub AllInChunk : List Hit → List ℕ → Type 0
AllInChunk [] xs = Unit {0}
AllInChunk (e ∷ es) xs = InChunk e (take 256 xs) × AllInChunk es (drop 256 xs)

abbrev pub count : List Hit → ℕ
count [] = 0
count (e ∷ es) = weight e + count es

length-hit : (e : Hit) (c : List ℕ) → length (hit e c) ≡ length c
length-hit none c = refl
length-hit (some (j, k)) c = length-flip c j k

chunk-fixed :
    (e : Hit) (c : List ℕ)
    → AreBytes c
    → length c ≤ 256
    → InChunk e c
    → ecc_correct_chunk256 (hit e c) (ecc_make_chunk256 c) (ecc_make_chunk256 (hit e c)) (length c)
      ≡ (fixed (weight e), c)
chunk-fixed none c h fits v = ecc_correct_chunk256-same c (length c)
chunk-fixed (some (j, k)) c h fits v = ecc_correct_chunk256-flip c j k h fits v.0 v.1

first : List Hit → Hit
first [] = none
first (e ∷ es) = e

rest : List Hit → List Hit
rest [] = []
rest (e ∷ es) = es

damage-split :
    (es : List Hit) (xs : List ℕ)
    → damage es xs ≡ hit (first es) (take 256 xs) ++ damage (rest es) (drop 256 xs)
unfolding first rest
damage-split [] xs = sym (take-append-drop 256 xs)
damage-split (e ∷ es) xs = refl

AllInChunk-split :
    (es : List Hit) (xs : List ℕ)
    → AllInChunk es xs
    → InChunk (first es) (take 256 xs) × AllInChunk (rest es) (drop 256 xs)
unfolding first rest
AllInChunk-split [] xs v = (tt, tt)
AllInChunk-split (e ∷ es) xs v = v

count-split : (es : List Hit) → count es ≡ weight (first es) + count (rest es)
unfolding first rest
count-split [] = omega arith
count-split (e ∷ es) = refl

-- There is nothing to damage in no data.
damage-empty : (es : List Hit) → AllInChunk es [] → (damage es [] ≡ []) × (count es ≡ 0)
damage-empty [] v = (refl, refl)
damage-empty (none ∷ es) v = let inner = damage-empty es v.1 in (inner.0, omega (arith, inner.1))
damage-empty (some (j, k) ∷ es) v = absurd (omega (arith, v.0.0))

ecc_make_loop-chunk :
    (fuel : ℕ) (ys : List ℕ)
    → 0 < length ys
    → ecc_make_loop (suc fuel) ys
      ≡ ecc_make_chunk256 (take 256 ys) ++ ecc_make_loop fuel (drop 256 ys)
unfolding ecc_make_loop
ecc_make_loop-chunk fuel [] h = elim h [ ]
ecc_make_loop-chunk fuel (x ∷ ys) h = refl

ecc_correct_loop-chunk :
    (fuel n total : ℕ) (ys c xs code test : List ℕ) (r : Fix)
    → 0 < length ys
    → ecc_correct_chunk256
        (take 256 ys)
        (ecc_make_chunk256 c)
        (ecc_make_chunk256 (take 256 ys))
        (min 256 (length ys))
      ≡ (fixed n, c)
    → ecc_correct_loop fuel (drop 256 ys) code test (total + n) ≡ (r, xs)
    → ecc_correct_loop
        (suc fuel)
        ys
        (ecc_make_chunk256 c ++ code)
        (ecc_make_chunk256 (take 256 ys) ++ test)
        total
      ≡ (r, c ++ xs)
unfolding ecc_correct_loop continue_with ecc_make_chunk256 ecc_correct_chunk256
ecc_correct_loop-chunk fuel n total [] c xs code test r h e e' = elim h [ ]
ecc_correct_loop-chunk fuel n total (y ∷ ys) c xs code test r h e e' = rw (e, e') refl

-- One round of the correction, when the chunk `bad` is repaired to `good`.
repair-round :
    (fuel n total : ℕ) (bad d good xs code : List ℕ) (r : Fix)
    → 0 < length (bad ++ d)
    → take 256 (bad ++ d) ≡ bad
    → drop 256 (bad ++ d) ≡ d
    → min 256 (length (bad ++ d)) ≡ length good
    → ecc_correct_chunk256 bad (ecc_make_chunk256 good) (ecc_make_chunk256 bad) (length good)
      ≡ (fixed n, good)
    → ecc_correct_loop fuel d code (ecc_make_loop fuel d) (total + n) ≡ (r, xs)
    → ecc_correct_loop
        (suc fuel)
        (bad ++ d)
        (ecc_make_chunk256 good ++ code)
        (ecc_make_loop (suc fuel) (bad ++ d))
        total
      ≡ (r, good ++ xs)
repair-round fuel n total bad d good xs code r pos t dr len e e' =
    ap (λ test. ecc_correct_loop (suc fuel) (bad ++ d) (ecc_make_chunk256 good ++ code) test total)
      (ecc_make_loop-chunk fuel (bad ++ d) pos)
    ∙ ecc_correct_loop-chunk fuel n total (bad ++ d) good xs code
        (ecc_make_loop fuel (drop 256 (bad ++ d))) r pos (rw (t, len) e) (rw dr e')

take-AreBytes : (n : ℕ) (xs : List ℕ) → AreBytes xs → AreBytes (take n xs)
take-AreBytes zero xs h = tt
take-AreBytes (suc n) [] h = tt
take-AreBytes (suc n) (x ∷ xs) h = (h.0, take-AreBytes n xs h.1)

drop-AreBytes : (n : ℕ) (xs : List ℕ) → AreBytes xs → AreBytes (drop n xs)
drop-AreBytes zero xs h = h
drop-AreBytes (suc n) [] h = tt
drop-AreBytes (suc n) (x ∷ xs) h = drop-AreBytes n xs h.1

empty_of-length : (xs : List ℕ) → length xs ≡ 0 → xs ≡ []
empty_of-length [] e = refl
empty_of-length (x ∷ xs) e = absurd (omega arith)

-- The damaged first chunk and what follows it are cut where they were joined.
first-cut :
    (es : List Hit) (xs : List ℕ)
    → AllInChunk es xs
    → let c = hit (first es) (take 256 xs) in
      let d = damage (rest es) (drop 256 xs) in (length c ≡ 256) ⊎ (d ≡ [])
first-cut es xs v = elim (le_or_lt 256 (length xs)) [
  | inl le ↦ inl (omega (arith, length-hit (first es) (take 256 xs), length-take 256 xs))
  | inr lt ↦
      let nothing : drop 256 xs ≡ [] = empty_of-length _ (omega (arith, length-drop 256 xs)) in
      let fits = subst (AllInChunk (rest es)) nothing (AllInChunk-split es xs v).1 in
      inr (rw nothing (damage-empty (rest es) fits).0)
]

loop-repairs :
    (fuel : ℕ) (es : List Hit) (xs : List ℕ) (total : ℕ)
    → length xs ≤ fuel
    → AreBytes xs
    → AllInChunk es xs
    → ecc_correct_loop fuel
        (damage es xs)
        (ecc_make_loop fuel xs)
        (ecc_make_loop fuel (damage es xs))
        total
      ≡ (fixed (total + count es), xs)
unfolding ecc_correct_loop
loop-repairs zero es [] total hf h v =
    let (d, n) = damage-empty es v in rw (d, n) (ap (λ t. (fixed t, [])) (omega arith))
loop-repairs (suc fuel) es [] total hf h v =
    let (d, n) = damage-empty es v in rw (d, n) (ap (λ t. (fixed t, [])) (omega arith))
loop-repairs zero es (x ∷ xs) total hf h v = absurd (omega arith)
loop-repairs (suc fuel) es (x ∷ xs) total hf h v =
    let all : List ℕ = x ∷ xs in
    let c = hit (first es) (take 256 all) in
    let d = damage (rest es) (drop 256 all) in
    let lc = length-hit (first es) (take 256 all) in
    let lt = length-take 256 all in
    let (bit, others) = AllInChunk-split es all v in
    let cases = first-cut es all v in
    let n = weight (first es) in
    let (cut_take, cut_drop) = take-append 256 c d (omega arith) cases in
    let lcd = length-append c d in
    let len : min 256 (length (c ++ d)) ≡ length (take 256 all) = elim cases [
      | inl e ↦ omega arith
      | inr e ↦ let none_left = ap length e in omega arith
    ] in
    let rounds =
      repair-round fuel n total c d (take 256 all) (drop 256 all)
        (ecc_make_loop fuel (drop 256 all)) (fixed (total + count es)) (omega arith) cut_take
        cut_drop len
        (chunk-fixed (first es) (take 256 all) (take-AreBytes 256 all h) (omega arith) bit)
        (loop-repairs fuel (rest es) (drop 256 all) (total + n) (omega (arith, length-drop 256 all))
            (drop-AreBytes 256 all h) others
          ∙ ap (λ t. (fixed t, drop 256 all)) (omega (arith, count-split es))) in
    ap₂ (λ ys code. ecc_correct_loop (suc fuel) ys code (ecc_make_loop (suc fuel) ys) total)
      (damage-split es all) (ecc_make_loop-chunk fuel all (omega arith))
    ∙ rounds
    ∙ ap (λ ys. (fixed (total + count es), ys)) (take-append-drop 256 all)

damage-length : (es : List Hit) (xs : List ℕ) → length (damage es xs) ≡ length xs
damage-length [] xs = refl
damage-length (e ∷ es) xs = omega (
  arith,
  length-append (hit e (take 256 xs)) (damage es (drop 256 xs)),
  length-hit e (take 256 xs),
  damage-length es (drop 256 xs),
  length-take 256 xs,
  length-drop 256 xs,
)

-- Data of any length with at most one flipped bit in each 256-byte chunk are repaired by
-- uffs_EccCorrect from the code made before the damage, and the result is the number of flipped
-- bits.
pub ecc_correct-damage :
    (es : List Hit) (xs : List ℕ)
    → AreBytes xs
    → AllInChunk es xs
    → ecc_correct
        (some (damage es xs))
        (some (ecc_make (some xs) true))
        (some (ecc_make (some (damage es xs)) true))
      ≡ (fixed (count es), some xs)
unfolding ecc_correct ecc_make
ecc_correct-damage es xs h v =
    let rounds =
      loop-repairs (length xs) es xs 0 (omega arith) h v ∙ ap (λ t. (fixed t, xs)) (omega arith) in
    rw (damage-length es xs, rounds) refl
