-- ===== src/Codegen/Closing.antt =====
-- algebra/CompilationContext.cpp: the sinks are closed.
use inkfuse.Base.{
  ℕ, zero, suc, ◌+◌, ◌-◌, ◌%◌, ◌^◌, ◌<◌, ◌≡◌, inl, inr, refl, subst, ◌∙◌, true, List, [], ◌∷◌, ◌++◌,
  map, arith, ◌==◌, if◌then◌else◌, update, Bool-cases, eq→==,
}
use inkfuse.Algebra.{get_producers}
use inkfuse.Algebra.Repipe.{occurs}
use inkfuse.Codegen.{Context, State, Task, close, release, step}
use inkfuse.Codegen.Steps.{Reaches, Reaches-refl, Reaches-trans, Reaches-step}
use inkfuse.Codegen.Orderly.{AllBelow, IsOrderly}

module _ (c : Context) (size : ℕ) (o : IsOrderly c size) where
  -- The calls that close suboperators end, and leave the code as it is.
  abbrev pub Closes : List Task → List Task → State → Type 0
  Closes ts rest s = (s' : State) × Reaches c ts s rest s' × (s'.code ≡ s.code)

  releases :
      (n : ℕ) (qs : List ℕ) (rest : List Task) (s : State)
      → ((q : ℕ) (rest : List Task) (s : State) → q < n → Closes (close q ∷ rest) rest s)
      → AllBelow n qs
      → Closes (map release qs ++ rest) rest s
  unfolding step
  releases n [] rest s closing b = (s, Reaches-refl c rest s, refl)
  releases n (q ∷ qs) rest s closing (l, b) =
      let left = (s.upstream_requests q + 2 ^ 64 - 1) % 2 ^ 64 in
      let s₁ : State = record s { upstream_requests = update s.upstream_requests q left } in
      let others = map release qs ++ rest in
      let first =
        Reaches-step c (release q) others (if left == 0 then close q ∷ [] else []) s s₁ refl in
      elim (Bool-cases (left == 0)) [
        | inr e ↦
            let (s₂, r, same) = releases n qs rest s₁ closing b in
            (
              s₂,
              Reaches-trans c (release q ∷ others) others rest s s₁ s₂
                  (subst
                    (λ b.
                      Reaches c (release q ∷ others) s ((if b then close q ∷ [] else []) ++ others)
                        s₁)
                    e first)
                  r,
              same,
            )
        | inl e ↦
            let (s₂, r, same) = closing q others s₁ l in
            let (s₃, r', same') = releases n qs rest s₂ closing b in
            (
              s₃,
              Reaches-trans c (release q ∷ others) (close q ∷ others) rest s s₁ s₃
                  (subst
                    (λ b.
                      Reaches c (release q ∷ others) s ((if b then close q ∷ [] else []) ++ others)
                        s₁)
                    e first)
                  (Reaches-trans c (close q ∷ others) others rest s₁ s₂ s₃ r r'),
              same' ∙ same,
            )
      ]

  closes :
      (n i : ℕ) (rest : List Task) (s : State) → i < n → i < size → Closes (close i ∷ rest) rest s
  unfolding step get_producers
  closes zero i rest s l b = absurd (omega (arith, l))
  closes (suc n) i rest s l b =
      let s₁ : State = record s { closed = i ∷ s.closed } in
      let others = map release (get_producers c.pipeline i) ++ rest in
      let (s₂, r, same) =
        releases i (get_producers c.pipeline i) rest s₁
          (λ q rest s l'. closes n q rest s (omega (arith, l, l')) (omega (arith, b, l')))
          (o.producers i b) in
      (
        s₂,
        Reaches-trans c (close i ∷ rest) others rest s s₁ s₂
            (Reaches-step c (close i) rest (map release (get_producers c.pipeline i)) s s₁ refl) r,
        same,
      )

  pub all_closed :
      (is : List ℕ) (s : State)
      → ((j : ℕ) → occurs j is ≡ true → j < size)
      → Closes (map close is) [] s
  unfolding occurs
  all_closed [] s fit = (s, Reaches-refl c [] s, refl)
  all_closed (i ∷ is) s fit =
      let here : (i == i) ≡ true = eq→== i i refl in
      let l = fit i (rw here refl) in
      let (s₁, r, same) = closes size i (map close is) s l l in
      let (s₂, r', same') = all_closed is s₁ (λ j e. fit j (ground (arith, e))) in
      (s₂, Reaches-trans c (close i ∷ map close is) (map close is) [] s s₁ s₂ r r', same' ∙ same)
