-- ===== src/Algebra/Fusion.antt =====
-- algebra/Pipeline.h: the destructor of `ROFScopeGuard`.
use inkfuse.Base.{
  ℕ, zero, suc, ◌+◌, ◌-◌, ◌≤◌, ◌<◌, ◌≡◌, refl, sym, ap, ◌∙◌, ◌≢◌, inl, inr, true, false, Option,
  none, some, List, [], ◌∷◌, arith, ltb, Bool-cases, length,
}
use inkfuse.Algebra.{
  RofStrategy, begin_vectorized, end_vectorized, Subop, set_rof_strategy, end_scope,
}

-- The strategy of the suboperator at an index.
unfoldable pub strategy_at : List Subop → ℕ → Option RofStrategy
strategy_at [] i = none
strategy_at (s ∷ ss) zero = some s.rof
strategy_at (s ∷ ss) (suc i) = strategy_at ss i

length-set_rof_strategy :
    (i : ℕ) (r : RofStrategy) (ss : List Subop) → length (set_rof_strategy i r ss) ≡ length ss
unfolding set_rof_strategy
length-set_rof_strategy i r [] = refl
length-set_rof_strategy zero r (s ∷ ss) = refl
length-set_rof_strategy (suc i) r (s ∷ ss) = ap suc (length-set_rof_strategy i r ss)

strategy_set :
    (i : ℕ) (r : RofStrategy) (ss : List Subop)
    → i < length ss
    → strategy_at (set_rof_strategy i r ss) i ≡ some r
unfolding set_rof_strategy strategy_at
strategy_set i r [] h = elim h [ ]
strategy_set zero r (s ∷ ss) h = refl
strategy_set (suc i) r (s ∷ ss) h = strategy_set i r ss (omega (arith, h))

strategy_kept :
    (i j : ℕ) (r : RofStrategy) (ss : List Subop)
    → i ≢ j
    → strategy_at (set_rof_strategy i r ss) j ≡ strategy_at ss j
unfolding set_rof_strategy strategy_at
strategy_kept i j r [] h = refl
strategy_kept zero zero r (s ∷ ss) h = absurd (h refl)
strategy_kept zero (suc j) r (s ∷ ss) h = refl
strategy_kept (suc i) zero r (s ∷ ss) h = refl
strategy_kept (suc i) (suc j) r (s ∷ ss) h = strategy_kept i j r ss (λ e. h (ap suc e))

-- What the end of a scope does to the strategies, by the number of suboperators that were attached
-- in it: none changes nothing; two or more get the first marked as the begin of a vectorized block
-- and the last as its end, the others unchanged; a single one is marked only as an end, with no
-- begin before it.
pub end_scope-strategies :
    (size : ℕ) (ss : List Subop)
    → (length ss ≤ size → end_scope size ss ≡ ss)
      × (size + 1 < length ss
          → (strategy_at (end_scope size ss) size ≡ some begin_vectorized)
            × (strategy_at (end_scope size ss) (length ss - 1) ≡ some end_vectorized))
      × (size + 1 ≡ length ss → strategy_at (end_scope size ss) size ≡ some end_vectorized)
      × ((i : ℕ)
          → i ≢ size
          → i ≢ length ss - 1
          → strategy_at (end_scope size ss) i ≡ strategy_at ss i)
unfolding end_scope
end_scope-strategies size ss = (nothing, block, single, others)
  where
    begun : List Subop
    begun = set_rof_strategy size begin_vectorized ss

    same_length : length begun ≡ length ss
    same_length = length-set_rof_strategy size begin_vectorized ss

    nothing : length ss ≤ size → end_scope size ss ≡ ss
    nothing h = let outside : ltb size (length ss) ≡ false = ground (arith, h) in rw outside refl

    block :
        size + 1 < length ss
        → (strategy_at (end_scope size ss) size ≡ some begin_vectorized)
          × (strategy_at (end_scope size ss) (length ss - 1) ≡ some end_vectorized)
    block h =
        let inside : ltb size (length ss) ≡ true = ground (arith, h) in
        rw inside (
          strategy_kept (length ss - 1) size end_vectorized begun (λ e. omega (arith, e, h))
              ∙ strategy_set size begin_vectorized ss (omega (arith, h)),
          strategy_set (length ss - 1) end_vectorized begun (omega (arith, h, same_length)),
        )

    single : size + 1 ≡ length ss → strategy_at (end_scope size ss) size ≡ some end_vectorized
    single h =
        let inside : ltb size (length ss) ≡ true = ground (arith, h) in
        let last : size ≡ length ss - 1 = omega (arith, h) in
        rw inside (
          ap (strategy_at (set_rof_strategy (length ss - 1) end_vectorized begun)) last
          ∙ strategy_set (length ss - 1) end_vectorized begun (omega (arith, h, same_length)))

    others :
        (i : ℕ)
        → i ≢ size
        → i ≢ length ss - 1
        → strategy_at (end_scope size ss) i ≡ strategy_at ss i
    others i a b = elim (Bool-cases (ltb size (length ss))) [
      | inr outside ↦ rw outside refl
      | inl inside ↦ rw inside (
          strategy_kept (length ss - 1) i end_vectorized begun (λ e. b (sym e))
          ∙ strategy_kept size i begin_vectorized ss (λ e. a (sym e)))
    ]
