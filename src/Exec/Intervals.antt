-- ===== src/Exec/Intervals.antt =====
-- exec/PipelineExecutor.cpp: a morsel under relaxed operator fusion runs through each suboperator.
use inkfuse.Base.{
  ℕ, zero, suc, ◌+◌, ◌-◌, ◌≤◌, ◌<◌, ◌≡◌, refl, sym, ap, subst, ◌∙◌, inl, inr, Bool, true, false,
  List, [], ◌∷◌, ◌++◌, arith, ltb, ◌==◌, ==→eq, if◌then◌else◌, Bool-cases, length,
}
use inkfuse.Runtime.Run.{Run, ok, ◌>>=◌}
use inkfuse.Algebra.{RofStrategy, default, begin_vectorized, end_vectorized}
use inkfuse.Exec.{
  compile_intervals, set_up_rof, Step, compiled, interpreted, skipped, rof_steps, rof_morsel,
}

-- `len` numbers from `from` on.
unfoldable pub numbers : ℕ → ℕ → List ℕ
numbers from zero = []
numbers from (suc len) = from ∷ numbers (from + 1) len

-- The suboperators that the steps run through.
unfoldable pub covered : List Step → List ℕ
unfolding numbers
covered [] = []
covered (compiled start end ∷ steps) = numbers start (end - start) ++ covered steps
covered (interpreted i ∷ steps) = i ∷ covered steps
covered (skipped i ∷ steps) = i ∷ covered steps

-- The intervals lie in a pipeline of `size` suboperators.
pub AllInside : ℕ → List (ℕ × ℕ) → Type 0
AllInside size [] = Unit
AllInside size ((start, end) ∷ intervals) = (start ≤ end) × (end ≤ size) × AllInside size intervals

pub numbers-append :
    (from m k n next : ℕ)
    → n ≡ m + k
    → next ≡ from + m
    → numbers from m ++ numbers next k ≡ numbers from n
unfolding numbers
numbers-append from zero k n next h e =
    ap (λ f. numbers f k) (omega (arith, e)) ∙ ap (numbers from) (omega (arith, h))
numbers-append from (suc m) k zero next h e = absurd (omega (arith, h))
numbers-append from (suc m) k (suc n) next h e =
    ap (◌∷◌ from) (numbers-append (from + 1) m k n next (omega (arith, h)) (omega (arith, e)))

-- The first number, and the rest.
numbers_first :
    (from size : ℕ)
    → from < size
    → numbers from (size - from) ≡ from ∷ numbers (from + 1) (size - (from + 1))
unfolding numbers
numbers_first from size h =
    sym (numbers-append from 1 (size - (from + 1)) (size - from) (from + 1) (omega (arith, h)) refl)

numbers_none : (from size : ℕ) → size ≤ from → numbers from (size - from) ≡ []
unfolding numbers
numbers_none from size h = let none_ : size - from ≡ 0 = omega (arith, h) in ap (numbers from) none_

step_covered :
    (b : Bool) (i : ℕ) (steps : List Step)
    → covered ((if b then interpreted i else skipped i) ∷ steps) ≡ i ∷ covered steps
unfolding covered
step_covered true i steps = refl
step_covered false i steps = refl

module _ (has_interpreter : ℕ → Bool) (size : ℕ) where
  Covers : ℕ → Run (List Step) → Type 0
  Covers current r =
      (steps : List Step) × (r ≡ ok steps) × (covered steps ≡ numbers current (size - current))

  rof_steps-Covers :
      (fuel : ℕ) (intervals : List (ℕ × ℕ)) (current : ℕ)
      → AllInside size intervals
      → current ≤ size
      → (size - current) + length intervals < fuel
      → Covers current (rof_steps has_interpreter size fuel intervals current)
  unfolding rof_steps Covers AllInside covered
  rof_steps-Covers zero intervals current inside l h = absurd (omega (arith, h))
  rof_steps-Covers (suc fuel) [] current inside l h = elim (Bool-cases (ltb current size)) [
    | inr over ↦ ([], rw over refl, sym (numbers_none current size (ground (arith, over))))
    | inl more ↦
        let before : current < size = ground (arith, more) in
        let (steps, r, c) =
          rof_steps-Covers fuel [] (current + 1) inside (omega (arith, before))
            (omega (arith, h, before)) in
        let step = if has_interpreter current then interpreted current else skipped current in
        (
          step ∷ steps,
          rw (more, r, ◌>>=◌) refl,
          step_covered (has_interpreter current) current steps
              ∙ ap (◌∷◌ current) c
              ∙ sym (numbers_first current size before),
        )
  ]
  rof_steps-Covers (suc fuel) ((start, end) ∷ intervals) current inside l h =
      elim (Bool-cases (ltb current size)) [
        | inr over ↦ ([], rw over refl, sym (numbers_none current size (ground (arith, over))))
        | inl more ↦
            let before : current < size = ground (arith, more) in
            elim (Bool-cases (start == current)) [
              | inl here ↦
                  let same : start ≡ current = ==→eq start current here in
                  let (ordered, ends, others) = inside in
                  let (steps, r, c) =
                    rof_steps-Covers fuel intervals end others ends
                      (omega (arith, h, ordered, ends, same)) in
                  (
                    compiled start end ∷ steps,
                    rw (more, here, r, ◌>>=◌) refl,
                    ap (λ xs. numbers start (end - start) ++ xs) c
                        ∙ numbers-append start (end - start) (size - end) (size - start) end
                            (omega (arith, ordered, ends)) (omega (arith, ordered))
                        ∙ ap (λ i. numbers i (size - i)) same,
                  )
              | inr apart ↦
                  let (steps, r, c) =
                    rof_steps-Covers fuel ((start, end) ∷ intervals) (current + 1) inside
                      (omega (arith, before)) (omega (arith, h, before)) in
                  let step =
                    if has_interpreter current then interpreted current else skipped current in
                  (
                    step ∷ steps,
                    rw (more, apart, r, ◌>>=◌) refl,
                    step_covered (has_interpreter current) current steps
                        ∙ ap (◌∷◌ current) c
                        ∙ sym (numbers_first current size before),
                  )
            ]
      ]

compile_intervals-AllInside :
    (rs : List RofStrategy) (k curr : ℕ) (in_vectorized : Bool) (size : ℕ)
    → curr ≤ k
    → k + length rs ≡ size
    → AllInside size (compile_intervals rs k curr in_vectorized)
unfolding compile_intervals AllInside
compile_intervals-AllInside [] k curr true size l h = tt
compile_intervals-AllInside [] k curr false size l h = (l, omega (arith, h), tt)
compile_intervals-AllInside (begin_vectorized ∷ rs) k curr v size l h = (
  l,
  omega (arith, h),
  compile_intervals-AllInside rs (k + 1) curr true size (omega (arith, l)) (omega (arith, h)),
)
compile_intervals-AllInside (end_vectorized ∷ rs) k curr v size l h =
    compile_intervals-AllInside rs (k + 1) (k + 1) false size (omega arith) (omega (arith, h))
compile_intervals-AllInside (default ∷ rs) k curr v size l h =
    compile_intervals-AllInside rs (k + 1) curr v size (omega (arith, l)) (omega (arith, h))

-- No vectorized block ends before one has begun.
unfoldable pub begins_first : List RofStrategy → Bool
begins_first [] = true
begins_first (begin_vectorized ∷ rs) = true
begins_first (end_vectorized ∷ rs) = false
begins_first (default ∷ rs) = begins_first rs

first_interval :
    (rs : List RofStrategy) (k : ℕ)
    → begins_first rs ≡ true
    → (end : ℕ) × (intervals : List (ℕ × ℕ)) × (compile_intervals rs k 0 false
        ≡ (0, end) ∷ intervals)
unfolding compile_intervals begins_first
first_interval [] k h = (k, [], refl)
first_interval (begin_vectorized ∷ rs) k h = (k, _, refl)
first_interval (end_vectorized ∷ rs) k h = cc
first_interval (default ∷ rs) k h = first_interval rs (k + 1) h

-- A morsel under relaxed operator fusion, if no vectorized block ends before one has begun, ends
-- and runs through each suboperator of the pipeline once and in order: in a compiled interval, in
-- its interpreter, or skipped if it has none.
pub rof_morsel_covers :
    (has_interpreter : ℕ → Bool) (strategies : List RofStrategy)
    → begins_first strategies ≡ true
    → (steps : List Step) × (rof_morsel has_interpreter (length strategies) (set_up_rof strategies)
        ≡ ok steps)
      × (covered steps ≡ numbers 0 (length strategies))
unfolding rof_morsel set_up_rof AllInside covered Covers
rof_morsel_covers has_interpreter strategies h =
    let size = length strategies in
    let (end, intervals, e) = first_interval strategies 0 h in
    let all : AllInside size (compile_intervals strategies 0 0 false) =
      compile_intervals-AllInside strategies 0 0 false size (omega arith) (omega arith) in
    let all' : AllInside size ((0, end) ∷ intervals) = subst (AllInside size) e all in
    let (ordered, ends, others) = all' in
    let (steps, r, c) =
      rof_steps-Covers has_interpreter size (size + length intervals + 1) intervals end others ends
        (omega (arith, ends)) in
    (
      compiled 0 end ∷ steps,
      rw (e, rof_morsel, r, ◌>>=◌) refl,
      ap (λ xs. numbers 0 (end - 0) ++ xs) c
          ∙ numbers-append 0 (end - 0) (size - end) size end (omega (arith, ends)) (omega arith),
    )
