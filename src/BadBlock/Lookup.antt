-- ===== src/BadBlock/Lookup.antt =====
-- The pending list of src/uffs_badblock.c as a map of limited size from blocks to marks.
use esp_uffs.Prelude.{
  ℕ, suc, ◌<◌, ◌≤◌, ◌≡◌, ◌≢◌, refl, sym, ◌∙◌, ap, ◌⊎◌, ◌↔◌, inl, inr, List, [], ◌∷◌, ◌++◌, Bool,
  true, false, Option, none, some, ltb, leb, ◌==◌, ==_iff, if◌then◌else◌, length, arith, Bool-cases,
  length-append,
}
use esp_uffs.Prelude.Words.{u16}
use esp_uffs.BadBlock.{
  PendingBlock, PendingList, max_pending_blocks, raise_mark, or_append, bad_block_add, find_entry,
  bad_block_pending_node_get, remove_entry, removed_or_fail, bad_block_pending_remove,
}

abbrev pub Unlisted : ℕ → List PendingBlock → Type 0
Unlisted block [] = Unit {0}
Unlisted block (s ∷ rest) = (s.block ≢ block) × Unlisted block rest

abbrev pub DistinctBlocks : List PendingBlock → Type 0
DistinctBlocks [] = Unit {0}
DistinctBlocks (s ∷ rest) = Unlisted s.block rest × DistinctBlocks rest

-- Every block is listed once, and the array has room for the entries.
pub record IsPending (pending : PendingList) : Type 0 where
  pub distinct : DistinctBlocks pending.entries
  pub fits : length pending.entries ≤ max_pending_blocks

-- The mark that an entry gets.
abbrev pub higher : ℕ → ℕ → ℕ
higher old new = if ltb old new then new else old

-- What the list says of a block after the block was added with a mark.
unfoldable pub added : Option PendingBlock → Bool → ℕ → ℕ → Option PendingBlock
added (some s) full block mark = some (record { block = s.block; mark = higher s.mark mark })
added none true block mark = none
added none false block mark = some (record { block = block; mark = mark })

raise_one :
    (s : PendingBlock) (mark : ℕ)
    → (if ltb s.mark mark then record s { mark = mark } else s)
      ≡ record { block = s.block; mark = higher s.mark mark }
raise_one s mark = elim (Bool-cases (ltb s.mark mark)) [ inl t ↦ rw t refl | inr f ↦ rw f refl ]

raise_mark-find_entry :
    (xs : List PendingBlock) (block mark other : ℕ)
    → ((raise_mark xs block mark ≡ none) × Unlisted block xs × (find_entry xs block ≡ none))
      ⊎ ((ys : List PendingBlock) × (s : PendingBlock) × (raise_mark xs block mark ≡ some ys)
          × (length ys ≡ length xs)
          × (find_entry xs block ≡ some s)
          × (find_entry ys other ≡ (
              if other == block
              then some (record { block = s.block; mark = higher s.mark mark })
              else find_entry xs other))
          × ((b : ℕ) → Unlisted b xs → Unlisted b ys)
          × (DistinctBlocks xs → DistinctBlocks ys))
unfolding raise_mark find_entry
raise_mark-find_entry [] block mark other = inl (refl, tt, refl)
raise_mark-find_entry (s ∷ rest) block mark other = elim (Bool-cases (s.block == block)) [
  | inl same ↦
      let top : PendingBlock = record { block = s.block; mark = higher s.mark mark } in
      inr (
        top ∷ rest,
        s,
        rw same (ap (λ t. some (t ∷ rest)) (raise_one s mark)),
        refl,
        rw same refl,
        (ground arith),
        (λ b u. u),
        (λ d. d),
      )
  | inr differ ↦ elim (raise_mark-find_entry rest block mark other) [
    | inl (e, un, f) ↦ inl (rw (differ, e) refl, (ground arith, un), rw differ f)
    | inr (ys, t, e, l, f, g, keep, dist) ↦ inr (
      s ∷ ys,
      t,
      rw (differ, e) refl,
      ap suc l,
      rw differ f,
      (ground arith),
      (λ b u. (u.0, keep b u.1)),
      (λ d. (keep _ d.0, dist d.1)),
    )
  ]
]

find_entry-append :
    (xs : List PendingBlock) (s : PendingBlock) (other : ℕ)
    → Unlisted s.block xs
    → find_entry (xs ++ s ∷ []) other ≡ (if other == s.block then some s else find_entry xs other)
unfolding find_entry
find_entry-append [] s other h = ground arith
find_entry-append (x ∷ xs) s other h = ground (arith, find_entry-append xs s other h.1)

Unlisted-append :
    (xs : List PendingBlock) (s : PendingBlock) (b : ℕ)
    → s.block ≢ b
    → Unlisted b xs
    → Unlisted b (xs ++ s ∷ [])
Unlisted-append [] s b ne h = (ne, tt)
Unlisted-append (x ∷ xs) s b ne h = (h.0, Unlisted-append xs s b ne h.1)

DistinctBlocks-append :
    (xs : List PendingBlock) (s : PendingBlock)
    → Unlisted s.block xs
    → DistinctBlocks xs
    → DistinctBlocks (xs ++ s ∷ [])
DistinctBlocks-append [] s h d = (tt, tt)
DistinctBlocks-append (x ∷ xs) s h d =
    (Unlisted-append xs s x.block (λ e. h.0 (sym e)) d.0, DistinctBlocks-append xs s h.1 d.1)

unchanged :
    (xs : List PendingBlock) (block other : ℕ)
    → find_entry xs block ≡ none
    → find_entry xs other ≡ (if other == block then none else find_entry xs other)
unchanged xs block other f = elim (Bool-cases (other == block)) [
  | inl same ↦ rw same (ap (find_entry xs) ((==_iff other block).0 same) ∙ f)
  | inr differ ↦ rw differ refl
]

at_self :
    (find : ℕ → Option PendingBlock) (block other : ℕ)
    → find other ≡ (if other == block then find block else find other)
at_self find block other = elim (Bool-cases (other == block)) [
  | inl same ↦ rw same (ap find ((==_iff other block).0 same))
  | inr differ ↦ rw differ refl
]

leb-false : (a b : ℕ) → leb a b ≡ false → b < a
leb-false a b h = ground arith

or_append-IsPending :
    (pending : PendingList) (block mark other : ℕ)
    → IsPending pending
    → block < 65536
    → let after = or_append (raise_mark pending.entries block mark) pending block mark in
      let full = leb max_pending_blocks (length pending.entries) in
      IsPending after
      × (find_entry after.entries other ≡ (
          if other == block
          then added (find_entry pending.entries block) full block mark
          else find_entry pending.entries other))
unfolding or_append added
or_append-IsPending pending block mark other v h =
    let xs = pending.entries in
    let same : u16 block ≡ block = omega arith in
    let new : PendingBlock = record { block = block; mark = mark } in
    elim (raise_mark-find_entry xs block mark other) [
      | inl (e, un, f) ↦ elim (Bool-cases (leb max_pending_blocks (length xs))) [
        | inl full ↦ rw (e, full, f) (v, unchanged xs block other f)
        | inr room ↦
            rw (e, room, f, same)
              (
                record {
                  distinct = DistinctBlocks-append xs new un v.distinct;
                  fits = omega (arith, length-append xs (new ∷ []), leb-false _ _ room);
                },
                find_entry-append xs new other un,
              )
      ]
      | inr (ys, s, e, l, f, g, keep, dist) ↦
          rw (e, f)
            (record { distinct = dist v.distinct; fits = let old = v.fits in omega arith }, g)
    ]

-- uffs_BadBlockAdd, on a list with distinct blocks and at most four entries and with a block
-- number that fits a u16, keeps that and works as a map of limited size: the mark of the given
-- block only grows if it is listed, the block is listed with the mark if it is not and there is
-- room, nothing changes if the list is full or the block is in recovery, and no other block is
-- touched.
pub bad_block_add-added :
    (pending : PendingList) (block mark other : ℕ)
    → IsPending pending
    → block < 65536
    → let after = bad_block_add pending block mark in
      let full = leb max_pending_blocks (length pending.entries) in
      IsPending after
      × (bad_block_pending_node_get after other ≡ (
          if other == block
          then (if pending.block_in_recovery == block
              then bad_block_pending_node_get pending block
              else added (bad_block_pending_node_get pending block) full block mark)
          else bad_block_pending_node_get pending other))
unfolding bad_block_add bad_block_pending_node_get
bad_block_add-added pending block mark other v h =
    elim (Bool-cases (pending.block_in_recovery == block)) [
      | inl busy ↦ rw busy (v, at_self (find_entry pending.entries) block other)
      | inr idle ↦ rw idle (or_append-IsPending pending block mark other v h)
    ]

-- The first entry with a block is its only one.
Unlisted-find_entry : (xs : List PendingBlock) (b : ℕ) → Unlisted b xs → find_entry xs b ≡ none
unfolding find_entry
Unlisted-find_entry [] b h = refl
Unlisted-find_entry (x ∷ xs) b h = ground (arith, Unlisted-find_entry xs b h.1)

remove_entry-find_entry :
    (xs : List PendingBlock) (block : ℕ)
    → DistinctBlocks xs
    → ((remove_entry xs block ≡ none) × (find_entry xs block ≡ none))
      ⊎ ((ys : List PendingBlock) × (s : PendingBlock) × (remove_entry xs block ≡ some ys)
          × (length xs ≡ suc (length ys))
          × (find_entry xs block ≡ some s)
          × ((other : ℕ)
              → find_entry ys other ≡ (if other == block then none else find_entry xs other))
          × ((b : ℕ) → Unlisted b xs → Unlisted b ys)
          × DistinctBlocks ys)
unfolding remove_entry find_entry
remove_entry-find_entry [] block d = inl (refl, refl)
remove_entry-find_entry (s ∷ rest) block d = elim (Bool-cases (s.block == block)) [
  | inl same ↦
      let at = (==_iff s.block block).0 same in
      let gone = Unlisted-find_entry rest s.block d.0 in
      inr (
        rest,
        s,
        rw same refl,
        refl,
        rw same refl,
        (λ other.
            let u = unchanged rest block other (ap (find_entry rest) (sym at) ∙ gone) in
            ground arith),
        (λ b u. u.1),
        d.1,
      )
  | inr differ ↦ elim (remove_entry-find_entry rest block d.1) [
    | inl (e, f) ↦ inl (rw (differ, e) refl, rw differ f)
    | inr (ys, t, e, l, f, g, keep, dist) ↦ inr (
      s ∷ ys,
      t,
      rw (differ, e) refl,
      ap suc l,
      rw differ f,
      (λ other. ground (arith, g other)),
      (λ b u. (u.0, keep b u.1)),
      (keep _ d.0, dist),
    )
  ]
]

-- uffs_BadBlockPendingRemove, on a list with distinct blocks and at most four entries, keeps that,
-- forgets the given block and no other, and fails exactly when the block is not listed.
pub bad_block_pending_remove-none :
    (pending : PendingList) (block other : ℕ)
    → IsPending pending
    → let r = bad_block_pending_remove pending block in
      IsPending (r.1)
      × (bad_block_pending_node_get (r.1) other
          ≡ (if other == block then none else bad_block_pending_node_get pending other))
      × ((r.0 ≡ false) ↔ (bad_block_pending_node_get pending block ≡ none))
unfolding bad_block_pending_remove bad_block_pending_node_get removed_or_fail
bad_block_pending_remove-none pending block other v =
    let xs = pending.entries in
    elim (remove_entry-find_entry xs block v.distinct) [
      | inl (e, f) ↦ rw (e, f) (v, unchanged xs block other f, ((λ t. refl), (λ t. refl)))
      | inr (ys, s, e, l, f, g, keep, dist) ↦
          rw (e, f)
            (
              record { distinct = dist; fits = let old = v.fits in omega arith },
              g other,
              ((λ t. absurd (ground arith)), (λ t. absurd (ground arith))),
            )
    ]
