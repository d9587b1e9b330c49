-- ===== src/Runtime/DirectLookup/Iterate.antt =====
-- runtime/HashTables.cpp: the iterator of `HashTableDirectLookup`.
use inkfuse.Base.{
  ℕ, zero, suc, ◌+◌, ◌^◌, ◌≤◌, ◌<◌, ◌≡◌, refl, sym, ap, subst, inl, inr, Bool, true, false, none,
  some, arith, ltb, ◌==◌, ==→eq, Bool-cases,
}
use inkfuse.Runtime.Run.{ok}
use inkfuse.Runtime.Scan.{Iterator}
use inkfuse.Runtime.DirectLookup.{Direct, seek, advance_direct, start_direct, capacity_direct}

-- The iterator stands at the first tagged slot from `from` on, or is null.
pub data IsNext (tags : ℕ → Bool) (from : ℕ) (it : Iterator) : Type 0 where
  next_slot :
      (i : ℕ)
      → it ≡ (some i, i)
      → from ≤ i
      → i < capacity_direct
      → tags i ≡ true
      → ((x : ℕ) → from ≤ x → x < i → tags x ≡ false)
      → IsNext tags from it
  no_slot :
      it ≡ (none, capacity_direct)
      → ((x : ℕ) → from ≤ x → x < capacity_direct → tags x ≡ false)
      → IsNext tags from it

from_next :
    (tags : ℕ → Bool) (from i : ℕ)
    → tags from ≡ false
    → ((x : ℕ) → from + 1 ≤ x → x < i → tags x ≡ false)
    → (x : ℕ) → from ≤ x
    → x < i
    → tags x ≡ false
from_next tags from i empty rest x p q = elim (Bool-cases (x == from)) [
  | inl here ↦ subst (λ y. tags y ≡ false) (sym (==→eq x from here)) empty
  | inr apart ↦ rest x (ground arith) q
]

seek-IsNext :
    (tags : ℕ → Bool) (fuel from : ℕ)
    → from ≤ capacity_direct
    → capacity_direct < from + fuel
    → (it : Iterator) × (seek tags fuel from ≡ ok it) × IsNext tags from it
unfolding seek
seek-IsNext tags zero from l h = absurd (omega arith)
seek-IsNext tags (suc fuel) from l h = elim (Bool-cases (ltb from (2 ^ 16))) [
  | inr past ↦ (
    (none, from),
    rw past refl,
    no_slot (ap (λ n. (none, n)) (ground arith)) (λ x p q. absurd (ground arith)),
  )
  | inl inside ↦ elim (Bool-cases (tags from)) [
    | inl full ↦ (
      (some from, from),
      rw (inside, full) refl,
      next_slot from refl (omega arith) (ground arith) full (λ x p q. absurd (omega arith)),
    )
    | inr empty ↦
        let (it, r, a) = seek-IsNext tags fuel (from + 1) (ground arith) (omega arith) in
        (
          it,
          rw (inside, empty) r,
          elim a [
            | next_slot i e p q f b ↦
                next_slot i e (omega arith) q f (from_next tags from i empty b)
            | no_slot e b ↦ no_slot e (from_next tags from capacity_direct empty b)
          ],
        )
  ]
]

-- `iteratorStart` ends at the first tagged slot or is null if no slot is tagged, and
-- `iteratorAdvance` ends at the first tagged slot behind the one it is called at or is null.
pub direct_visits_tagged :
    (t : Direct)
    → ((it : Iterator) × (start_direct t ≡ ok it) × IsNext t.tags 0 it)
      × ((i : ℕ)
          → i < capacity_direct
          → (it : Iterator) × (advance_direct t i ≡ ok it) × IsNext t.tags (i + 1) it)
unfolding start_direct advance_direct
direct_visits_tagged t = (
  elim (Bool-cases (t.tags 0)) [
    | inl full ↦ (
      (some 0, 0),
      rw full refl,
      next_slot 0 refl (omega arith) (omega arith) full (λ x p q. absurd (omega arith)),
    )
    | inr empty ↦
        let (it, r, a) = seek-IsNext t.tags (2 ^ 16 + 1) 1 (omega arith) (omega arith) in
        (
          it,
          rw empty r,
          elim a [
            | next_slot i e p q f b ↦ next_slot i e (omega arith) q f (from_next t.tags 0 i empty b)
            | no_slot e b ↦ no_slot e (from_next t.tags 0 capacity_direct empty b)
          ],
        )
  ],
  λ i l. seek-IsNext t.tags (2 ^ 16 + 1) (i + 1) (omega arith) (omega arith),
)
