-- ===== src/Base/Arrays.antt =====
-- Arrays as functions of the index, and a flat count of the indices that pass a test.
use inkfuse.Base.Tests.{◌==◌, if◌then◌else◌, Bool-cases, ==→eq}
use Prim.Native.Nat.{ℕ, zero, suc, ◌+◌, ◌≤◌, ◌<◌}
use mathlib.Core.Path.{◌≡◌, refl}
use mathlib.Core.Logic.{◌≢◌, inl, inr}
use mathlib.Core.Bool.{Bool, true, false}
use native.Mathlib.Numerals.{add-one}
use native.Mathlib.Omega.{arith}

-- A write of `v` at `i`.
abbrev pub update {ℓ} : {A : Type ℓ} → (ℕ → A) → ℕ → A → ℕ → A
update f i v j = if j == i then v else f j

-- How many indices below `n` pass.
unfoldable pub count_below : ℕ → (ℕ → Bool) → ℕ
count_below zero p = 0
count_below (suc n) p = (if p n then 1 else 0) + count_below n p

pub count_below-zero : (p : ℕ → Bool) → count_below 0 p ≡ 0
unfolding count_below
count_below-zero p = refl

pub count_below-step :
    (n : ℕ) (p : ℕ → Bool) → count_below (n + 1) p ≡ (if p n then 1 else 0) + count_below n p
unfolding count_below
count_below-step n p = rw add-one refl

-- No index passes.
pub count_below-none : (n : ℕ) (p : ℕ → Bool) → ((i : ℕ) → p i ≡ false) → count_below n p ≡ 0
unfolding count_below
count_below-none zero p h = refl
count_below-none (suc n) p h = rw (h n) (omega (arith, count_below-none n p h))

pub count_below-le : (n : ℕ) (p : ℕ → Bool) → count_below n p ≤ n
unfolding count_below
count_below-le zero p = omega arith
count_below-le (suc n) p = ground (arith, count_below-le n p)

pub count_below-congr :
    (n : ℕ) (p q : ℕ → Bool) → ((i : ℕ) → i < n → p i ≡ q i) → count_below n p ≡ count_below n q
unfolding count_below
count_below-congr zero p q h = refl
count_below-congr (suc n) p q h =
    ground (arith, h n (omega arith), count_below-congr n p q (λ i l. h i (omega arith)))

-- One more index passes.
pub count_below-add :
    (n : ℕ) (p q : ℕ → Bool) (e : ℕ)
    → e < n
    → p e ≡ false
    → q e ≡ true
    → ((i : ℕ) → i ≢ e → p i ≡ q i)
    → count_below n q ≡ count_below n p + 1
unfolding count_below
count_below-add zero p q e l pe qe same = elim l [ ]
count_below-add (suc n) p q e l pe qe same = elim (Bool-cases (n == e)) [
  | inl here ↦
      let rest = count_below-congr n p q (λ i k. same i (λ eq. omega (arith, ==→eq n e here))) in
      let here' : n ≡ e = ==→eq n e here in
      let pn : p n ≡ false = (rw here' pe) in let qn : q n ≡ true = (rw here' qe) in ground arith
  | inr apart ↦
      let below : e < n = ground arith in
      let rest = count_below-add n p q e below pe qe same in
      ground (arith, same n (λ eq. ground arith))
]

-- Some index fails when fewer than `n` pass.
pub count_below-lt :
    (n : ℕ) (p : ℕ → Bool) → count_below n p < n → (e : ℕ) × (e < n) × (p e ≡ false)
unfolding count_below
count_below-lt zero p h = elim h [ ]
count_below-lt (suc n) p h = elim (Bool-cases (p n)) [
  | inr e ↦ (n, omega arith, e)
  | inl e ↦ let (i, l, f) = count_below-lt n p (ground arith) in (i, omega arith, f)
]
