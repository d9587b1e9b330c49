-- ===== src/Runtime/Scan.antt =====
-- runtime/HashTables.cpp and runtime/NewHashTables.cpp: the iterators over the slots of a table.
use inkfuse.Base.{
  ℕ, zero, suc, ◌+◌, ◌≤◌, ◌<◌, ◌≡◌, refl, sym, subst, inl, inr, Bool, true, false, Option, none,
  some, arith, ◌==◌, ==→eq, if◌then◌else◌, Bool-cases,
}
use inkfuse.Runtime.Run.{Run, ok, diverges}

-- An iterator: `*it_data`, which is null at the end, and `*it_idx`.
abbrev pub Iterator : Type 0
Iterator = Option ℕ × ℕ

-- `SharedHashTableState::advanceNoWrap` and `AtomicHashTable::itAdvanceNoWrap`
unfoldable pub advance_no_wrap : ℕ → ℕ → Iterator
advance_no_wrap mod_mask idx = if idx == mod_mask then (none, idx) else (some (idx + 1), idx + 1)

-- The loop that advances until the slot passes a test or the iterator is null, with fuel for the
-- rounds.
unfoldable pub scan : (ℕ → Bool) → ℕ → ℕ → Iterator → Run Iterator
scan passes mod_mask fuel (none, idx) = ok (none, idx)
scan passes mod_mask zero (some p, idx) = diverges
scan passes mod_mask (suc fuel) (some p, idx) =
    let rest = scan passes mod_mask fuel (advance_no_wrap mod_mask idx) in
    if passes idx then ok (some p, idx) else rest

-- The iterator stands at the first slot from `from` on that passes, or at the end if none does.
pub data IsAt (passes : ℕ → Bool) (m from : ℕ) (it : Iterator) : Type 0 where
  at_slot :
      (i : ℕ)
      → it ≡ (some i, i)
      → from ≤ i
      → i ≤ m
      → passes i ≡ true
      → ((x : ℕ) → from ≤ x → x < i → passes x ≡ false)
      → IsAt passes m from it
  at_end : it ≡ (none, m) → ((x : ℕ) → from ≤ x → x ≤ m → passes x ≡ false) → IsAt passes m from it

later :
    (passes : ℕ → Bool) (m : ℕ) (from : ℕ) (it : Iterator)
    → passes from ≡ false
    → IsAt passes m (from + 1) it
    → IsAt passes m from it
later passes m from it empty (at_slot i e l k f b) =
    at_slot i e (omega arith) k f (λ x p q. first x p q)
  where
    first : (x : ℕ) → from ≤ x → x < i → passes x ≡ false
    first x p q = elim (Bool-cases (x == from)) [
      | inl here ↦ subst (λ y. passes y ≡ false) (sym (==→eq x from here)) empty
      | inr apart ↦ b x (ground arith) q
    ]
later passes m from it empty (at_end e b) = at_end e (λ x p q. first x p q)
  where
    first : (x : ℕ) → from ≤ x → x ≤ m → passes x ≡ false
    first x p q = elim (Bool-cases (x == from)) [
      | inl here ↦ subst (λ y. passes y ≡ false) (sym (==→eq x from here)) empty
      | inr apart ↦ b x (ground arith) q
    ]

scan-IsAt :
    (passes : ℕ → Bool) (m : ℕ) (fuel from : ℕ)
    → from ≤ m
    → m + 1 < from + fuel
    → (it : Iterator) × (scan passes m fuel (some from, from) ≡ ok it) × IsAt passes m from it
unfolding scan advance_no_wrap
scan-IsAt passes m zero from l h = absurd (omega arith)
scan-IsAt passes m (suc fuel) from l h = elim (Bool-cases (passes from)) [
  | inl full ↦ (
    (some from, from),
    rw full,
    at_slot from refl (omega arith) l full (λ x p q. absurd (omega arith)),
  )
  | inr empty ↦ elim (Bool-cases (from == m)) [
    | inr more ↦
        let (it, r, a) = scan-IsAt passes m fuel (from + 1) (ground arith) (omega arith) in
        (it, rw (empty, more) r, later passes m from it empty a)
    | inl last ↦
        let here : from ≡ m = ==→eq from m last in
        (
          (none, from),
          rw (empty, last),
          at_end (rw here) (λ x p q.
              let there : from ≡ x = omega arith in subst (λ y. passes y ≡ false) there empty),
        )
  ]
]

-- A scan from the first slot.
pub scan_start :
    (passes : ℕ → Bool) (m : ℕ)
    → (it : Iterator) × (scan passes m (m + 2) (some 0, 0) ≡ ok it) × IsAt passes m 0 it
scan_start passes m = scan-IsAt passes m (m + 2) 0 (omega arith) (omega arith)

-- A scan from the slot behind `i`.
pub scan_next :
    (passes : ℕ → Bool) (m i : ℕ)
    → i ≤ m
    → (it : Iterator) × (scan passes m (m + 2) (advance_no_wrap m i) ≡ ok it)
      × IsAt passes m (i + 1) it
unfolding advance_no_wrap scan
scan_next passes m i l = elim (Bool-cases (i == m)) [
  | inr more ↦
      let (it, r, a) = scan-IsAt passes m (m + 2) (i + 1) (ground arith) (omega arith) in
      (it, rw more r, a)
  | inl last ↦
      let here : i ≡ m = ==→eq i m last in
      ((none, i), rw last, at_end (rw here) (λ x p q. absurd (omega arith)))
]
