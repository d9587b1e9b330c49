-- ===== src/Runtime/Probe.antt =====
-- The probing loops of the hash tables: `for (;;) { if (stop) return; advance(); }`.
use inkfuse.Base.{
  ℕ, zero, suc, ◌+◌, ◌-◌, ◌≤◌, ◌<◌, ◌≡◌, ◌≢◌, subst, inl, inr, Bool, true, false, arith, leb, ◌==◌,
  if◌then◌else◌, Bool-cases,
}
use inkfuse.Runtime.Run.{Run, ok, diverges}

-- `SharedHashTableState::advance`: the next slot, with wrap-around behind the last one
unfoldable pub advance : ℕ → ℕ → ℕ
advance mod_mask idx = if idx == mod_mask then 0 else idx + 1

-- The loop, with fuel for the rounds. A table that does not change in the loop is back at its
-- first slot after `mod_mask + 1` rounds, so that then the loop never ends.
unfoldable pub probe : (ℕ → Bool) → ℕ → ℕ → ℕ → Run ℕ
probe stop mod_mask zero idx = diverges
probe stop mod_mask (suc fuel) idx =
    let rest = probe stop mod_mask fuel (advance mod_mask idx) in if stop idx then ok idx else rest

-- the rounds that lead from slot `i` to slot `e`
abbrev pub rounds : ℕ → ℕ → ℕ → ℕ
rounds mod_mask i e = if leb i e then e - i else mod_mask + 1 - i + e

pub rounds-lt : (m i e : ℕ) → i ≤ m → e ≤ m → rounds m i e < m + 1
rounds-lt m i e p q = ground arith

-- The loop ends at a slot where its test holds.
pub probe-stop : (stop : ℕ → Bool) (m fuel i j : ℕ) → probe stop m fuel i ≡ ok j → stop j ≡ true
unfolding probe
probe-stop stop m zero i j h = cc
probe-stop stop m (suc fuel) i j h = ground (arith, probe-stop stop m fuel (advance m i) j)

-- It stays inside the table.
pub probe-le : (stop : ℕ → Bool) (m fuel i j : ℕ) → i ≤ m → probe stop m fuel i ≡ ok j → j ≤ m
unfolding probe advance
probe-le stop m zero i j l h = cc
probe-le stop m (suc fuel) i j l h = ground (arith, probe-le stop m fuel (advance m i) j)

-- It ends if the test holds at a slot within reach of the fuel.
pub probe_total :
    (stop : ℕ → Bool) (m fuel i e : ℕ)
    → i ≤ m
    → e ≤ m
    → stop e ≡ true
    → rounds m i e < fuel
    → (j : ℕ) × (probe stop m fuel i ≡ ok j)
unfolding probe advance
probe_total stop m zero i e p q h l = elim l [ ]
probe_total stop m (suc fuel) i e p q h l = elim (Bool-cases (stop i)) [
  | inl t ↦ (i, ground arith)
  | inr f ↦
      let (j, r) = probe_total stop m fuel (advance m i) e (ground arith) q h (ground arith) in
      (j, ground arith)
]

-- A second test that fails wherever the first one does, and holds where the loop ended, ends the
-- loop at the same slot.
pub probe_agree :
    (p q : ℕ → Bool) (m fuel i j : ℕ)
    → ((x : ℕ) → x ≤ m → p x ≡ false → q x ≡ false)
    → q j ≡ true
    → i ≤ m
    → probe p m fuel i ≡ ok j
    → probe q m fuel i ≡ ok j
unfolding probe advance
probe_agree p q m zero i j h t l e = cc
probe_agree p q m (suc fuel) i j h t l e =
    ground (arith, h i l, probe_agree p q m fuel (advance m i) j h)

-- The step to the next slot puts the slot that is left behind it, and no other.
pub rounds-advance :
    (m h x y : ℕ)
    → h ≤ m
    → x ≤ m
    → y ≤ m
    → y ≢ x
    → rounds m h y < rounds m h (advance m x)
    → rounds m h y < rounds m h x
unfolding advance
rounds-advance m h x y p q r n l = ground arith

-- Two slots are the same number of rounds away only if they are one.
pub rounds-lt_of_ne :
    (m h y x : ℕ)
    → h ≤ m
    → y ≤ m
    → x ≤ m
    → y ≢ x
    → rounds m h y ≤ rounds m h x
    → rounds m h y < rounds m h x
rounds-lt_of_ne m h y x p q r n l = ground arith

pub advance-le : (m x : ℕ) → x ≤ m → advance m x ≤ m
unfolding advance
advance-le m x l = ground arith

near_of_near :
    (m i e x : ℕ)
    → i ≢ e
    → i ≢ x
    → i ≤ m
    → e ≤ m
    → x ≤ m
    → rounds m (advance m i) x ≤ rounds m (advance m i) e
    → rounds m i x ≤ rounds m i e
unfolding advance
near_of_near m i e x n n' p q k h = ground arith

apart_of_stop : (stop : ℕ → Bool) (i x : ℕ) → stop i ≡ false → stop x ≡ true → i ≢ x
apart_of_stop stop i x f t e = let f' : stop x ≡ false = subst (λ y. stop y ≡ false) e f in cc

-- The loop ends at a slot with `Q` if every slot on the way that stops it has `Q`, and the last.
pub probe_first {ℓ} :
    (Q : ℕ → Type ℓ) (stop : ℕ → Bool) (m fuel i e : ℕ)
    → i ≤ m
    → e ≤ m
    → rounds m i e < fuel
    → stop e ≡ true
    → ((x : ℕ) → x ≤ m → rounds m i x ≤ rounds m i e → stop x ≡ true → Q x)
    → (j : ℕ) × (probe stop m fuel i ≡ ok j) × Q j
unfolding probe advance
probe_first Q stop m zero i e p q l s h = elim l [ ]
probe_first Q stop m (suc fuel) i e p q l s h = elim (Bool-cases (stop i)) [
  | inl t ↦ (i, rw t, h i p (ground arith) t)
  | inr f ↦
      let (j, r, w) =
        probe_first Q stop m fuel (advance m i) e (ground arith) q (ground arith) s (λ x k near t.
          h x k
            (near_of_near m i e x (apart_of_stop stop i e f s) (apart_of_stop stop i x f t) p q k
              near)
            t) in
      (j, rw f r, w)
]
