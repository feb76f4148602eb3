-- ===== src/DirtyBuf/Slots.antt =====
-- The choice of a group to flush in src/uffs_buf.c.
use esp_uffs.Prelude.{
  ℕ, zero, suc, ◌+◌, ◌<◌, ◌≤◌, ◌≡◌, refl, ◌∙◌, ap, List, [], ◌∷◌, Bool, true, false, not, ◌&&◌,
  Option, none, some, ltb, ◌==◌, length, ◌⊎◌, inl, inr, arith, Bool-cases,
}
use esp_uffs.Buf.{DirtyGroup, PageBufs}
use esp_uffs.DirtyBuf.{no_dirty, most_dirty_loop, find_most_dirty_group, slot_such, group_at}

-- A group that may be flushed: it has dirty buffers and is not locked.
abbrev pub Eligible : DirtyGroup → Type 0
Eligible g = (no_dirty g.dirty ≡ false) × (g.lock ≡ 0)

abbrev pub AllAtMost : ℕ → List DirtyGroup → Type 0
AllAtMost n [] = Unit {0}
AllAtMost n (g ∷ rest) = (Eligible g → g.count ≤ n) × AllAtMost n rest

-- The group in a slot may be flushed, and none that may be has more dirty buffers.
pub record IsMost (groups : List DirtyGroup) (slot : ℕ) : Type 0 where
  pub in_range : slot < length groups
  pub eligible : Eligible (group_at slot groups)
  pub most : AllAtMost (group_at slot groups).count groups

AllAtMost-le : (n m : ℕ) (gs : List DirtyGroup) → n ≤ m → AllAtMost n gs → AllAtMost m gs
AllAtMost-le n m [] h a = tt
AllAtMost-le n m (g ∷ rest) h a =
    ((λ e. let small = a.0 e in omega arith), AllAtMost-le n m rest h a.1)

loop-IsMost :
    (i : ℕ) (gs : List DirtyGroup) (slot : Option ℕ) (n : ℕ)
    → ((most_dirty_loop i gs slot n ≡ slot) × AllAtMost n gs)
      ⊎ ((j : ℕ) × (most_dirty_loop i gs slot n ≡ some (i + j))
          × (n < (group_at j gs).count)
          × IsMost gs j)
unfolding most_dirty_loop group_at
loop-IsMost i [] slot n = inl (refl, tt)
loop-IsMost i (g ∷ rest) slot n =
    elim (Bool-cases (not (no_dirty g.dirty) && (g.lock == 0) && ltb n g.count)) [
      | inl more ↦
          let fit : Eligible g × (n < g.count) = ground arith in
          elim (loop-IsMost (i + 1) rest (some i) g.count) [
            | inl l ↦ inr (
              0,
              rw more (l.0 ∙ ap some (omega arith)),
              fit.1,
              record { in_range = omega arith; eligible = fit.0; most = ((λ e. omega arith), l.1) },
            )
            | inr r ↦
                let bigger = r.2 in
                inr (
                  suc r.0,
                  rw more (r.1 ∙ ap some (omega arith)),
                  omega (arith, fit.1),
                  record {
                    in_range = omega (arith, r.3.in_range);
                    eligible = r.3.eligible;
                    most = ((λ e. omega arith), r.3.most);
                  },
                )
          ]
      | inr less ↦
          let small : Eligible g → g.count ≤ n = λ e. ground arith in
          elim (loop-IsMost (i + 1) rest slot n) [
            | inl l ↦ inl (rw less l.0, (small, l.1))
            | inr r ↦
                let bigger = r.2 in
                inr (
                  suc r.0,
                  rw less (r.1 ∙ ap some (omega arith)),
                  bigger,
                  record {
                    in_range = omega (arith, r.3.in_range);
                    eligible = r.3.eligible;
                    most = ((λ e. let at = small e in omega arith), r.3.most);
                  },
                )
          ]
    ]

-- _FindMostDirtyGroup gives a slot that is not locked, has dirty buffers, and has the highest
-- count of those slots, or -1 when the count of each of those slots is 0.
pub find_most_dirty_group-IsMost :
    (s : PageBufs)
    → ((find_most_dirty_group s ≡ none) × AllAtMost 0 s.groups)
      ⊎ ((slot : ℕ) × (find_most_dirty_group s ≡ some slot)
          × (0 < (group_at slot s.groups).count)
          × IsMost s.groups slot)
unfolding find_most_dirty_group
find_most_dirty_group-IsMost s = elim (loop-IsMost 0 s.groups none 0) [
  | inl l ↦ inl l
  | inr r ↦ inr (r.0, r.1 ∙ ap some (omega arith), r.2, r.3)
]

-- The slot that a search finds.
pub slot_such-first :
    (test : DirtyGroup → Bool) (base k : ℕ) (gs : List DirtyGroup)
    → k < length gs
    → test (group_at k gs) ≡ true
    → ((j : ℕ) → j < k → test (group_at j gs) ≡ false)
    → slot_such test base gs ≡ some (base + k)
unfolding slot_such group_at
slot_such-first test base k [] h yes_k before = absurd (omega arith)
slot_such-first test base zero (g ∷ rest) h yes_k before = rw yes_k (ap some (omega arith))
slot_such-first test base (suc k) (g ∷ rest) h yes_k before = rw (before 0 (omega arith)) (
    slot_such-first test (base + 1) k rest (omega arith) yes_k
      (λ j hj. before (suc j) (omega arith))
    ∙ ap some (omega arith))

pub slot_such_sound :
    (test : DirtyGroup → Bool) (base k : ℕ) (gs : List DirtyGroup)
    → slot_such test base gs ≡ some k
    → (j : ℕ) × (k ≡ base + j) × (j < length gs) × (test (group_at j gs) ≡ true)
unfolding slot_such group_at
slot_such_sound test base k [] found = cc
slot_such_sound test base k (g ∷ rest) found = elim (Bool-cases (test g)) [
  | inl e ↦ (0, ground arith, omega arith, e)
  | inr e ↦
      let later = slot_such_sound test (base + 1) k rest (rw e at found) in
      (suc later.0, omega (arith, later.1), omega (arith, later.2), later.3)
]

pub slot_such-none :
    (test : DirtyGroup → Bool) (base : ℕ) (gs : List DirtyGroup) (j : ℕ)
    → slot_such test base gs ≡ none
    → j < length gs
    → test (group_at j gs) ≡ false
unfolding slot_such group_at
slot_such-none test base [] j found h = absurd (omega arith)
slot_such-none test base (g ∷ rest) zero found h = ground arith
slot_such-none test base (g ∷ rest) (suc j) found h = elim (Bool-cases (test g)) [
  | inl e ↦ ground arith
  | inr e ↦ slot_such-none test (base + 1) rest j (rw e at found) (omega arith)
]
