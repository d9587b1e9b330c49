-- ===== src/Base/Bits.antt =====
-- Facts about the bitwise operations: tables for bytes, and masks of every width.
use Prim.Native.Nat.{
  ℕ, zero, suc, ◌+◌, ◌-◌, ◌*◌, ◌/◌, ◌%◌, ◌≤◌, ◌<◌, min, bit_and, digits, bit_and-bitwise,
}
use mathlib.Core.Path.{◌≡◌, refl}
use mathlib.Core.Bool.{Bool, true, ◌&&◌}
use native.Mathlib.Omega.{arith}

-- A test that holds at each of the first `n` numbers.
unfoldable pub every_below : ℕ → (ℕ → Bool) → Bool
every_below zero p = true
every_below (suc n) p = every_below n p && p n

pub every_below-lt : (n : ℕ) (p : ℕ → Bool) (x : ℕ) → every_below n p ≡ true → x < n → p x ≡ true
unfolding every_below
every_below-lt zero p x h lt = elim lt [ ]
every_below-lt (suc n) p x h lt = ground (arith, every_below-lt n p x)

-- The digit recursion behind `bit_and`, whose first argument bounds the number of digits.
abbrev and_rounds : ℕ → ℕ → ℕ → ℕ
and_rounds k a b = digits (λ _. zero) min k a b

and_rounds_irrelevant : (k l a b : ℕ) → a ≤ k → a ≤ l → and_rounds k a b ≡ and_rounds l a b
and_rounds_irrelevant zero zero zero b p q = refl
and_rounds_irrelevant zero (suc l) zero b p q = refl
and_rounds_irrelevant (suc k) zero zero b p q = refl
and_rounds_irrelevant (suc k) (suc l) zero b p q = refl
and_rounds_irrelevant zero l (suc a) b p q = elim p [ ]
and_rounds_irrelevant (suc k) zero (suc a) b p q = elim q [ ]
and_rounds_irrelevant (suc k) (suc l) (suc a) b p q =
    let half = and_rounds_irrelevant k l (suc a / 2) (b / 2) (omega arith) (omega arith) in
    omega (arith, half)

-- `bit_and` works digit by digit.
pub bit_and-halves : (a b : ℕ) → bit_and a b ≡ 2 * bit_and (a / 2) (b / 2) + min (a % 2) (b % 2)
bit_and-halves zero b = omega (arith, bit_and-bitwise 0 b, bit_and-bitwise 0 (b / 2))
bit_and-halves (suc a) b =
    let whole = bit_and-bitwise (suc a) b in
    let rest = bit_and-bitwise (suc a / 2) (b / 2) in
    let same =
      and_rounds_irrelevant a (suc a / 2) (suc a / 2) (b / 2) (omega arith) (omega arith) in
    omega (arith, whole, rest, same)

bit_and-le_rounds : (k a b : ℕ) → a ≤ k → bit_and a b ≤ b
bit_and-le_rounds k zero b h = omega (arith, bit_and-bitwise 0 b)
bit_and-le_rounds zero (suc a) b h = elim h [ ]
bit_and-le_rounds (suc k) (suc a) b h =
    omega (arith, bit_and-halves (suc a) b, bit_and-le_rounds k (suc a / 2) (b / 2) (omega arith))

-- A masked value is at most the mask.
pub bit_and-le : (a b : ℕ) → bit_and a b ≤ b
bit_and-le a b = bit_and-le_rounds a a b (omega arith)

-- Doubling keeps a number without a bit in common with its predecessor.
pub bit_and-double : (n : ℕ) → 0 < n → bit_and n (n - 1) ≡ 0 → bit_and (2 * n) (2 * n - 1) ≡ 0
bit_and-double n pos h =
    let low : (2 * n) % 2 ≡ 0 = omega arith in
    let high : (2 * n) / 2 ≡ n = omega arith in
    let high' : (2 * n - 1) / 2 ≡ n - 1 = omega arith in
    let step = bit_and-halves (2 * n) (2 * n - 1) in
    let step' : bit_and (2 * n) (2 * n - 1)
        ≡ 2 * bit_and n (n - 1) + min ((2 * n) % 2) ((2 * n - 1) % 2) =
      (rw (high, high') at step) in
    omega arith
