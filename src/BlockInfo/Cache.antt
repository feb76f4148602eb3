-- ===== src/BlockInfo/Cache.antt =====
-- `uffs_BlockInfoGet` of src/uffs_blockinfo.c on the list of cached entries.
use esp_uffs.Prelude.{
  ℕ, ◌+◌, ◌<◌, ◌≡◌, ◌≢◌, refl, ap, Option, ◌⊎◌, inl, inr, List, [], ◌∷◌, ◌++◌, Bool, true, false,
  none, some, ◌==◌, ==_iff, arith, length, Bool-cases,
}
use esp_uffs.BlockInfo.{
  BlockInfo, take_first, renew, get_free, get_cached, block_info_get, hand_out, move_to_tail,
}
use esp_uffs.BlockInfo.Expired.{expired_pages, expire_all-expired}

-- No entry passes the test.
abbrev pub NonePass : (BlockInfo → Bool) → List BlockInfo → Type 0
NonePass test [] = Unit {0}
NonePass test (w ∷ xs) = (test w ≡ false) × NonePass test xs

abbrev pub cached : ℕ → BlockInfo → Bool
cached block w = w.block == block

abbrev pub unused : BlockInfo → Bool
unused w = w.ref_count == 0

take_first-split :
    (test : BlockInfo → Bool) (xs : List BlockInfo)
    → ((take_first test xs ≡ none) × NonePass test xs)
      ⊎ ((pre : List BlockInfo) × (w : BlockInfo) × (post : List BlockInfo) × (xs ≡ pre ++ w ∷ post)
          × (take_first test xs ≡ some (w, pre ++ post))
          × (test w ≡ true))
unfolding take_first
take_first-split test [] = inl (refl, tt)
take_first-split test (w ∷ xs) = elim (Bool-cases (test w)) [
  | inl t ↦ inr ([], w, xs, refl, rw t refl, t)
  | inr f ↦ elim (take_first-split test xs) [
    | inl (e, out) ↦ inl (rw (f, e) refl, (f, out))
    | inr (pre, v, post, split, e, t) ↦ inr (w ∷ pre, v, post, ap (◌∷◌ w) split, rw (f, e) refl, t)
  ]
]

-- What became of the entry `old` that is handed out as `w`.
abbrev pub Handed : List BlockInfo → ℕ → BlockInfo → BlockInfo → Type 0
Handed cache block old w =
    ((old.block ≡ block) × (w ≡ record old { ref_count = old.ref_count + 1 }))
    ⊎ (NonePass (cached block) cache
        × (old.ref_count ≡ 0)
        × (w.block ≡ block)
        × (w.ref_count ≡ 1)
        × (w.expired_count ≡ length old.spares)
        × (expired_pages w.spares ≡ length old.spares))

-- The entry `w` is handed out from a cache whose other entries are `rest`: it is now the last one, and
-- without another entry the code writes through NULL.
abbrev pub IsHandedOut :
    Option (Option BlockInfo × List BlockInfo) → List BlockInfo → BlockInfo → Type 0
IsHandedOut r rest w =
    ((rest ≡ []) × (r ≡ none)) ⊎ ((rest ≢ []) × (r ≡ some (some w, rest ++ w ∷ [])))

hand_out-IsHandedOut :
    (rest : List BlockInfo) (w : BlockInfo) → IsHandedOut (hand_out rest w) rest w
unfolding hand_out move_to_tail
hand_out-IsHandedOut [] w = inl (refl, refl)
hand_out-IsHandedOut (x ∷ xs) w = inr ((λ e. cc), refl)

-- For a block number below 65536, uffs_BlockInfoGet returns NULL and leaves the cache alone only
-- when no entry has the block and every entry is referenced. Otherwise it takes one entry to hand
-- it out: an entry with the block, with one more reference, or, when no entry has the block, an
-- unreferenced one that now has the block, one reference and only expired pages. With another
-- entry in the cache the entry is moved to the tail and returned; a cache of that one entry makes
-- the code write through NULL.
pub block_info_get-Handed :
    (cache : List BlockInfo) (block : ℕ)
    → block < 65536
    → ((block_info_get cache block ≡ some (none, cache))
        × NonePass (cached block) cache
        × NonePass unused cache)
      ⊎ ((pre : List BlockInfo) × (old : BlockInfo) × (post : List BlockInfo) × (w : BlockInfo)
          × (cache ≡ pre ++ old ∷ post)
          × IsHandedOut (block_info_get cache block) (pre ++ post) w
          × Handed cache block old w)
unfolding block_info_get get_cached get_free renew
block_info_get-Handed cache block small = elim (take_first-split (λ w. w.block == block) cache) [
  | inr (pre, old, post, split, e, t) ↦
      let held = record old { ref_count = old.ref_count + 1 } in
      inr (
        pre,
        old,
        post,
        held,
        split,
        rw e (hand_out-IsHandedOut (pre ++ post) held),
        inl ((==_iff old.block block).0 t, refl),
      )
  | inl (e, out) ↦ elim (take_first-split (λ w. w.ref_count == 0) cache) [
    | inl (e', out') ↦ inl (rw (e, e') refl, out, out')
    | inr (pre, old, post, split, e', t) ↦ inr (
      pre,
      old,
      post,
      renew block old,
      split,
      rw (e, e') (hand_out-IsHandedOut (pre ++ post) (renew block old)),
      inr (
        out,
        (==_iff old.ref_count 0).0 t,
        omega arith,
        refl,
        refl,
        (expire_all-expired old.spares 0).1,
      ),
    )
  ]
]
