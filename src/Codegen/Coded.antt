-- ===== src/Codegen/Coded.antt =====
-- algebra/CompilationContext.cpp: the code of a suboperator is added.
use inkfuse.Base.{
  ℕ, ◌+◌, ◌<◌, ◌≡◌, ◌≢◌, inl, inr, refl, ap, subst, ◌∙◌, true, false, List, ◌∷◌, arith, ◌==◌,
  if◌then◌else◌, Bool-cases, ==→eq,
}
use inkfuse.Algebra.Repipe.{occurs}
use inkfuse.Codegen.{Context, State, requested_for_filters, requested}
use inkfuse.Codegen.Steps.{coded, marked}
use inkfuse.Codegen.Orderly.{times, IsOrderly, AreAnswered, FiltersAreAnswered, times_elsewhere}
use inkfuse.Codegen.Progress.{by_scope, IsGood, Progresses, uncoded_before}

module _ (c : Context) (size : ℕ) (o : IsOrderly c size) where
  occurs_before :
      (i j : ℕ) (code : List ℕ)
      → occurs j (i ∷ code) ≡ false
      → ((i == j) ≡ false) × (occurs j code ≡ false)
  unfolding occurs
  occurs_before i j code e = elim (Bool-cases (i == j)) [
    | inl same ↦ absurd (ground (arith, e, same))
    | inr differ ↦ (differ, ground (arith, e, differ))
  ]

  -- The code of `i` is added to code that has what `i` asked for.
  pub IsGood-coded :
      (s s' : State) (h own : ℕ → ℕ) (i m : ℕ)
      → i < size
      → occurs i s.code ≡ false
      → IsGood c size o s h m
      → Progresses c size o s s' i
      → IsGood c size o s' own i
      → ((k : ℕ) → k ≢ i → own k ≡ times k (requested_for_filters c i) + h k)
      → AreAnswered c s'.code i (requested c i)
      → FiltersAreAnswered c s'.code (requested_for_filters c i)
      → IsGood c size o (marked c i (coded c i s')) h m
  unfolding occurs
  IsGood-coded s s' h own i m b n g p g' same a f =
      let n' : occurs i s'.code ≡ false = p.code_same i (omega arith) ∙ n in
      record {
        counts =
            λ r l e. let (differ, e') = occurs_before i r s'.code e in counted r l differ e' n';
        fresh = λ j l e.
            g.fresh j l (uncoded_before c size o s s' i j p ((occurs_before i j s'.code e).1));
        bounded = λ r l low t e e'.
            g.bounded r l low t
              (uncoded_before c size o s s' i r p ((occurs_before i r s'.code e).1))
              (uncoded_before c size o s s' i (o.owner r) p
                ((occurs_before i (o.owner r) s'.code e').1));
        computed_same = λ j not_sink. elim (Bool-cases (j == i)) [
          | inl e ↦ let e' : (i == j) ≡ true = ground (arith, e) in rw (e, e') refl
          | inr e ↦
              let e' : (i == j) ≡ false = ground (arith, e) in
              rw (e, e') (g'.computed_same j not_sink)
        ];
        ordered = (a, f, n', g'.ordered);
      }
    where
      counted :
          (r : ℕ)
          → r < size
          → (i == r) ≡ false
          → occurs r s'.code ≡ false
          → occurs i s'.code ≡ false
          → s'.serviced_requests r ≡ h r + by_scope c size o (i ∷ s'.code) r
      counted r l differ e n' =
          let out : r ≢ i = (λ eq. absurd (ground (arith, eq, differ))) in
          let k = g'.counts r l e in
          elim (Bool-cases (i == o.owner r)) [
            | inl mine ↦
                let eq : i ≡ o.owner r = ==→eq i (o.owner r) mine in
                let gone : occurs (o.owner r) s'.code ≡ false =
                  subst (λ x. occurs x s'.code ≡ false) eq n' in
                let before : by_scope c size o s'.code r ≡ 0 =
                  ap (λ b. if b then times r (requested_for_filters c (o.owner r)) else 0) gone in
                let now : times r (requested_for_filters c i)
                    ≡ times r (requested_for_filters c (o.owner r)) =
                  ap (λ x. times r (requested_for_filters c x)) eq in
                rw mine (omega (arith, k, same r out, before, now))
            | inr other ↦
                let apart : o.owner r ≢ i = (λ eq. absurd (ground (arith, eq, other))) in
                let zero_ = times_elsewhere c size o i r b apart in
                rw other (omega (arith, k, same r out, zero_))
          ]
