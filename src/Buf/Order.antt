-- ===== src/Buf/Order.antt =====
-- The searches of src/uffs_buf.c in the list of buffers, and its order.
use esp_uffs.Prelude.{
  ℕ, ◌≡◌, ◌≢◌, refl, sym, ◌∙◌, ap, List, [], ◌∷◌, ◌++◌, Bool, true, false, none, some, ◌==◌, ==_iff,
  ◌⊎◌, inl, inr, arith, Bool-cases, ◌+◌,
}
use esp_uffs.Prelude.Words.{u16}
use esp_uffs.Buf.{
  Buf, PageBufs, remove, first_such, last_such, matches, buf_find, buf_find_from, buf_get, hold,
  move_node_to_head, is_free_buf, find_free_buf,
}
use esp_uffs.Buf.Memory.{store_self, store_ne}

abbrev pub NoneSuch : (Buf → Bool) → (ℕ → Buf) → List ℕ → Type 0
NoneSuch test buf [] = Unit {0}
NoneSuch test buf (p ∷ rest) = (test (buf p) ≡ false) × NoneSuch test buf rest

first_such-split :
    (test : Buf → Bool) (buf : ℕ → Buf) (ps : List ℕ)
    → ((first_such test buf ps ≡ none) × NoneSuch test buf ps)
      ⊎ ((p : ℕ) × (ys zs : List ℕ) × (first_such test buf ps ≡ some p)
          × (ps ≡ ys ++ p ∷ zs)
          × (test (buf p) ≡ true)
          × NoneSuch test buf ys)
unfolding first_such
first_such-split test buf [] = inl (refl, tt)
first_such-split test buf (p ∷ rest) = elim (Bool-cases (test (buf p))) [
  | inl e ↦ inr (p, [], rest, (rw e refl), refl, e, tt)
  | inr e ↦ elim (first_such-split test buf rest) [
    | inl l ↦ inl ((rw e l.0), (e, l.1))
    | inr r ↦ inr (r.0, p ∷ r.1, r.2, (rw e r.3), ap (λ t. p ∷ t) r.4, r.5, (e, r.6))
  ]
]

last_such-split :
    (test : Buf → Bool) (buf : ℕ → Buf) (ps : List ℕ)
    → ((last_such test buf ps ≡ none) × NoneSuch test buf ps)
      ⊎ ((p : ℕ) × (ys zs : List ℕ) × (last_such test buf ps ≡ some p)
          × (ps ≡ ys ++ p ∷ zs)
          × (test (buf p) ≡ true)
          × NoneSuch test buf zs)
unfolding last_such
last_such-split test buf [] = inl (refl, tt)
last_such-split test buf (p ∷ rest) = elim (last_such-split test buf rest) [
  | inl l ↦ elim (Bool-cases (test (buf p))) [
    | inl e ↦ inr (p, [], rest, (rw (l.0, e) refl), refl, e, l.1)
    | inr e ↦ inl ((rw (l.0, e) refl), (e, l.1))
  ]
  | inr r ↦ inr (r.0, p ∷ r.1, r.2, (rw r.3 refl), ap (λ t. p ∷ t) r.4, r.5, r.6)
]

remove-split :
    (test : Buf → Bool) (buf : ℕ → Buf) (p : ℕ) (ys zs : List ℕ)
    → test (buf p) ≡ true
    → NoneSuch test buf ys
    → remove p (ys ++ p ∷ zs) ≡ ys ++ zs
unfolding remove
remove-split test buf p [] zs good bad = let self : (p == p) ≡ true = ground arith in rw self refl
remove-split test buf p (y ∷ ys) zs good bad = elim (Bool-cases (y == p)) [
  | inl e ↦
      let same = ap (λ q. test (buf q)) ((==_iff y p).0 e) in
      let clash = sym good ∙ sym same ∙ bad.0 in cc
  | inr e ↦ rw e (ap (λ t. y ∷ t) (remove-split test buf p ys zs good bad.1))
]

-- uffs_BufGet either changes nothing and returns NULL, when no buffer of the list holds the page,
-- or it returns the first buffer that does, counts one more reference, moves it to the head and
-- keeps the order and the contents of the other buffers.
pub buf_get-Found :
    (s : PageBufs) (parent serial page_id : ℕ)
    → let (found, s') = buf_get s parent serial page_id in
      let test = matches parent serial page_id in
      ((found ≡ none) × (s' ≡ s) × NoneSuch test s.buf s.list)
      ⊎ ((p : ℕ) × (ys zs : List ℕ) × (found ≡ some p)
          × (s.list ≡ ys ++ p ∷ zs)
          × (test (s.buf p) ≡ true)
          × NoneSuch test s.buf ys
          × (s'.list ≡ p ∷ ys ++ zs)
          × (s'.buf p ≡ record (s.buf p) { ref_count = u16 ((s.buf p).ref_count + 1) })
          × ((q : ℕ) → q ≢ p → s'.buf q ≡ s.buf q))
unfolding buf_get buf_find buf_find_from hold move_node_to_head
buf_get-Found s parent serial page_id =
    elim (first_such-split (matches parent serial page_id) s.buf s.list) [
      | inl l ↦ inl ((rw l.0 refl), (rw l.0 refl), l.1)
      | inr (p, ys, zs, found, split, good, bad) ↦
          let b = record (s.buf p) { ref_count = u16 ((s.buf p).ref_count + 1) } in
          inr (
            p,
            ys,
            zs,
            (rw found refl),
            split,
            good,
            bad,
            (rw found (
                ap (λ t. p ∷ t)
                  (ap (remove p) split
                    ∙ remove-split (matches parent serial page_id) s.buf p ys zs good bad))),
            (rw found (store_self s.buf p b)),
            (λ q ne. rw found (store_ne s.buf p b q ne)),
          )
    ]

-- _FindFreeBuf gives the buffer nearest to the tail that is neither referenced nor dirty, and NULL
-- only when there is none.
pub find_free_buf-Found :
    (s : PageBufs)
    → ((find_free_buf s ≡ none) × NoneSuch is_free_buf s.buf s.list)
      ⊎ ((p : ℕ) × (ys zs : List ℕ) × (find_free_buf s ≡ some p)
          × (s.list ≡ ys ++ p ∷ zs)
          × (is_free_buf (s.buf p) ≡ true)
          × NoneSuch is_free_buf s.buf zs)
unfolding find_free_buf
find_free_buf-Found s = last_such-split is_free_buf s.buf s.list
