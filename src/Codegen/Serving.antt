-- ===== src/Codegen/Serving.antt =====
-- algebra/CompilationContext.cpp: every request is met.
use inkfuse.Base.{
  ℕ, zero, suc, ◌<◌, ◌≡◌, inl, inr, refl, sym, subst, ◌∙◌, true, false, none, some, List, [], ◌∷◌,
  ◌++◌, map, arith, ◌==◌, if◌then◌else◌, update, Bool-cases, ==→eq, eq→==,
}
use inkfuse.Algebra.Repipe.{occurs}
use inkfuse.Codegen.{
  provider, producing_no_request, Context, State, Task, open_, notify, request, consume, service,
  is_sink, ready,
}
use inkfuse.Codegen.Steps.{
  Reaches, Reaches-trans, Reaches-step, coded, marked, noted, step-request, step-notify,
}
use inkfuse.Codegen.Orderly.{IsOrderly}
use inkfuse.Codegen.Progress.{IsGood, is_top}
use inkfuse.Codegen.Requests.{Served, Serves}
use inkfuse.Codegen.Opening.{opened}

module _ (c : Context) (size : ℕ) (o : IsOrderly c size) where
  pub ready-not_sink : (i : ℕ) → is_sink c i ≡ false → ready c i ≡ notify i ∷ []
  unfolding ready
  ready-not_sink i e = rw e refl

  -- The code of the provider stands already.
  meet_again :
      (q r iu : ℕ) (rest : List Task) (s : State) (h : ℕ → ℕ) (m : ℕ)
      → q < m
      → q < size
      → provider c r iu ≡ some q
      → is_sink c q ≡ false
      → producing_no_request c q ≡ false
      → IsGood c size o s h m
      → occurs q s.code ≡ true
      → Served c size o q r iu rest s h m
  unfolding occurs
  meet_again q r iu rest s h m lm b e not_sink asked g there =
      let done : s.computed q ≡ true = g.computed_same q not_sink ∙ there in
      let first : Reaches c (request r iu ∷ rest) s (notify q ∷ rest) s₁ =
        subst (λ b. Reaches c (request r iu ∷ rest) s ((if b then notify q else open_ q) ∷ rest) s₁)
          done start in
      record {
        after = told s₁;
        counted = [];
        reaches =
            Reaches-trans c (request r iu ∷ rest) (notify q ∷ rest)
              (consume r iu ∷ service r ∷ rest) s s₁ (told s₁) first
              (Reaches-step c (notify q) rest (consume r iu ∷ service r ∷ []) s₁ (told s₁)
                (step-notify c q r iu s₁ asked mine));
        progresses = record {
          grows = λ j e. e;
          code_same = λ k l. refl;
          requests_same = λ k l. let e : (k == q) ≡ false = ground (arith, l) in rw e refl;
          tops_same = λ j e. refl;
        };
        has_code = there;
        good = record {
          counts = g.counts;
          fresh = g.fresh;
          bounded = g.bounded;
          computed_same = λ j n. elim (Bool-cases (j == q)) [
            | inl e ↦ rw e (sym (subst (λ k. occurs k s.code ≡ true) (sym (==→eq j q e)) there))
            | inr e ↦ rw e (g.computed_same j n)
          ];
          ordered = g.ordered;
        };
        all_counted = tt;
      }
    where
      s₁ : State
      s₁ = noted c q r iu s

      told : State → State
      told s = record (marked c q s) { requests = update s.requests q none }

      start :
          Reaches c (request r iu ∷ rest) s ((if s.computed q then notify q else open_ q) ∷ rest) s₁
      start =
          Reaches-step c (request r iu) rest ((if s.computed q then notify q else open_ q) ∷ []) s
            s₁ (step-request c r iu q s e)

      mine : s₁.requests q ≡ some (r, iu)
      mine = let here : (q == q) ≡ true = eq→== q q refl in rw here refl

  -- The provider is opened.
  meet_first :
      (q r iu : ℕ) (rest : List Task) (s : State) (h : ℕ → ℕ) (m : ℕ)
      → q < m
      → q < size
      → provider c r iu ≡ some q
      → is_sink c q ≡ false
      → producing_no_request c q ≡ false
      → IsGood c size o s h m
      → Serves c size o q
      → occurs q s.code ≡ false
      → Served c size o q r iu rest s h m
  unfolding occurs
  meet_first q r iu rest s h m lm b e not_sink asked g below not_there =
      let new : s.computed q ≡ false = g.computed_same q not_sink ∙ not_there in
      let first : Reaches c (request r iu ∷ rest) s (open_ q ∷ rest) s₁ =
        subst (λ b. Reaches c (request r iu ∷ rest) s ((if b then notify q else open_ q) ∷ rest) s₁)
          new start in
      let w = opened c size o q rest s₁ h m below b lm not_there (record {
        counts = g.counts;
        fresh = g.fresh;
        bounded = g.bounded;
        computed_same = g.computed_same;
        ordered = g.ordered;
      }) in
      let s₂ = coded c q w.after in
      let tail = map service w.counted ++ rest in
      let end = consume r iu ∷ service r ∷ tail in
      let second : Reaches c (open_ q ∷ rest) s₁ (notify q ∷ tail) s₂ =
        subst (λ ts. Reaches c (open_ q ∷ rest) s₁ (ts ++ tail) s₂) (ready-not_sink q not_sink)
          w.reaches in
      let third =
        Reaches-step c (notify q) tail (consume r iu ∷ service r ∷ []) s₂ (told s₂)
          (step-notify c q r iu s₂ asked (w.progresses.requests_same q (omega arith) ∙ mine)) in
      record {
        after = told s₂;
        counted = w.counted;
        reaches =
            Reaches-trans c (request r iu ∷ rest) (open_ q ∷ rest) end s s₁ (told s₂) first
              (Reaches-trans c (open_ q ∷ rest) (notify q ∷ tail) end s₁ s₂ (told s₂) second third);
        progresses = record {
          grows = λ j e. ground (arith, w.progresses.grows j e);
          code_same = λ k l.
              let e : (q == k) ≡ false = ground (arith, l) in
              rw e (w.progresses.code_same k (omega (arith, l)));
          requests_same = λ k l.
              let e : (k == q) ≡ false = ground (arith, l) in
              let old : s₁.requests k ≡ s.requests k = rw e refl in
              rw e (w.progresses.requests_same k (omega (arith, l)) ∙ old);
          tops_same = λ j top. elim (Bool-cases (q == j)) [
            | inr e ↦ rw e (w.progresses.tops_same j top)
            | inl e ↦
                let same : is_top c size o q ≡ true =
                  subst (λ k. is_top c size o k ≡ true) (sym (==→eq q j e)) top in
                let not_top : is_top c size o q ≡ false = rw (not_sink, asked) refl in absurd cc
          ];
        };
        has_code = let here : (q == q) ≡ true = eq→== q q refl in rw here refl;
        good = record {
          counts = w.good.counts;
          fresh = w.good.fresh;
          bounded = w.good.bounded;
          computed_same = w.good.computed_same;
          ordered = w.good.ordered;
        };
        all_counted = w.all_counted;
      }
    where
      s₁ : State
      s₁ = noted c q r iu s

      told : State → State
      told s = record (marked c q s) { requests = update s.requests q none }

      start :
          Reaches c (request r iu ∷ rest) s ((if s.computed q then notify q else open_ q) ∷ rest) s₁
      start =
          Reaches-step c (request r iu) rest ((if s.computed q then notify q else open_ q) ∷ []) s
            s₁ (step-request c r iu q s e)

      mine : s₁.requests q ≡ some (r, iu)
      mine = let here : (q == q) ≡ true = eq→== q q refl in rw here refl

  pub serves : (n : ℕ) → Serves c size o n
  serves zero q r iu rest s h m l lm b e not_sink asked g = absurd (omega (arith, l))
  serves (suc n) q r iu rest s h m l lm b e not_sink asked g = elim (Bool-cases (occurs q s.code)) [
    | inl there ↦ meet_again q r iu rest s h m lm b e not_sink asked g there
    | inr not_there ↦
        let below : Serves c size o q =
          (λ q' r' iu' rest' s' h' m' l' lm' b' e' not_sink' asked' g'.
            serves n q' r' iu' rest' s' h' m' (omega (arith, l, l')) lm' b' e' not_sink' asked'
              g') in
        meet_first q r iu rest s h m lm b e not_sink asked g below not_there
  ]
