-- ===== src/Codegen/Progress.antt =====
-- algebra/CompilationContext.cpp: what holds between two calls while suboperators are opened.
use inkfuse.Base.{
  ℕ, ◌+◌, ◌<◌, ◌≤◌, ◌≡◌, inl, inr, refl, sym, ap, subst, ◌∙◌, Bool, true, false, ◌||◌, List, [],
  ◌∷◌, ◌++◌, map, arith, ◌==◌, if◌then◌else◌, Bool-cases, ==→eq, eq→==,
}
use inkfuse.Algebra.Repipe.{occurs}
use inkfuse.Codegen.{
  Context, State, Task, service, is_sink, num_source_ius, requested_for_filters,
  generates_in_consume, producing_no_request,
}
use inkfuse.Codegen.Steps.{
  Reaches, Reaches-refl, Reaches-trans, Reaches-step, served, step-service_code,
}
use inkfuse.Codegen.Orderly.{times, IsOrderly, InOrder, InOrder-Asks}

module _ (c : Context) (size : ℕ) (o : IsOrderly c size) where
  -- What a scope with code has requested for a filter.
  abbrev pub by_scope : List ℕ → ℕ → ℕ
  by_scope code r =
      if occurs (o.owner r) code then times r (requested_for_filters c (o.owner r)) else 0

  -- Of the requests that were serviced for a suboperator without code, `h` counts those that it made
  -- itself, and those that an open scope made for it. Those below `m` are not open.
  pub record IsGood (s : State) (h : ℕ → ℕ) (m : ℕ) : Type 0 where
    pub counts :
        (r : ℕ)
        → r < size
        → occurs r s.code ≡ false
        → s.serviced_requests r ≡ h r + by_scope s.code r
    pub fresh : (j : ℕ) → j < m → occurs j s.code ≡ false → h j ≡ 0
    pub bounded :
        (r : ℕ)
        → r < size
        → o.owner r < m
        → 0 < times r (requested_for_filters c (o.owner r))
        → occurs r s.code ≡ false
        → occurs (o.owner r) s.code ≡ false
        → h r + times r (requested_for_filters c (o.owner r)) < num_source_ius c r
    pub computed_same : (j : ℕ) → is_sink c j ≡ false → s.computed j ≡ occurs j s.code
    pub ordered : InOrder c s.code

  -- A filter with code has a scope with code.
  pub owner-occurs :
      (code : List ℕ) (r : ℕ)
      → InOrder c code
      → r < size
      → 0 < times r (requested_for_filters c (o.owner r))
      → occurs (o.owner r) code ≡ false
      → occurs r code ≡ false
  owner-occurs code r ord l some_ gone = elim (o.owned r l) [
    | inl none_ ↦ absurd (omega (arith, none_, some_))
    | inr (_, a) ↦ elim (Bool-cases (occurs r code)) [
      | inr not_ ↦ not_
      | inl yes_ ↦ let here = InOrder-Asks c code r (o.owner r) ord yes_ a in cc
    ]
  ]

  pub IsGood-le : (s : State) (h : ℕ → ℕ) (m n : ℕ) → m ≤ n → IsGood s h n → IsGood s h m
  IsGood-le s h m n l g = record {
    counts = g.counts;
    fresh = λ j k. g.fresh j (omega (arith, l, k));
    bounded = λ r k b. g.bounded r k (omega (arith, l, b));
    computed_same = g.computed_same;
    ordered = g.ordered;
  }

  pub IsGood-same :
      (s : State) (h h' : ℕ → ℕ) (m : ℕ) → ((k : ℕ) → h k ≡ h' k) → IsGood s h m → IsGood s h' m
  IsGood-same s h h' m e g = record {
    counts = λ r l n. omega (arith, e r, g.counts r l n);
    fresh = λ j l n. omega (arith, e j, g.fresh j l n);
    bounded = λ r l b t n n'. omega (arith, e r, g.bounded r l b t n n');
    computed_same = g.computed_same;
    ordered = g.ordered;
  }

  -- One more request was serviced for `r`.
  abbrev pub bumped : ℕ → (ℕ → ℕ) → ℕ → ℕ
  bumped r h k = (if r == k then 1 else 0) + h k

  pub IsGood-served :
      (s : State) (h : ℕ → ℕ) (m r : ℕ)
      → m ≤ r
      → (o.owner r < m
          → 0 < times r (requested_for_filters c (o.owner r))
          → occurs (o.owner r) s.code ≡ false
          → h r + times r (requested_for_filters c (o.owner r)) + 1 < num_source_ius c r)
      → IsGood s h m
      → IsGood (served c r s) (bumped r h) m
  IsGood-served s h m r l room g = record {
    counts = λ k b n. one k (g.counts k b n);
    fresh = λ j b n.
        let e : (r == j) ≡ false = ground (arith, b, l) in rw e (omega (arith, g.fresh j b n));
    bounded = λ k b low t n n'. elim (Bool-cases (r == k)) [
      | inr e ↦ rw e (omega (arith, g.bounded k b low t n n'))
      | inl e ↦
          let same : r ≡ k = ==→eq r k e in
          rw e (
            subst
              (λ k. 1 + h k + times k (requested_for_filters c (o.owner k)) < num_source_ius c k)
              same
              (omega (
                arith,
                room (subst (λ k. o.owner k < m) (sym same) low)
                    (subst (λ k. 0 < times k (requested_for_filters c (o.owner k))) (sym same) t)
                    (subst (λ k. occurs (o.owner k) s.code ≡ false) (sym same) n'),
              )))
    ];
    computed_same = g.computed_same;
    ordered = g.ordered;
  }
    where
      one :
          (k : ℕ)
          → s.serviced_requests k ≡ h k + by_scope s.code k
          → (served c r s).serviced_requests k ≡ bumped r h k + by_scope s.code k
      one k e = elim (Bool-cases (k == r)) [
        | inl same ↦
            let eq : k ≡ r = ==→eq k r same in
            let same' : (r == k) ≡ true = eq→== r k (sym eq) in
            rw (same, same') (omega (arith, e, ap s.serviced_requests eq))
        | inr differ ↦
            let differ' : (r == k) ≡ false = ground (arith, differ) in
            rw (differ, differ') (omega (arith, e))
      ]

  -- No suboperator of the pipeline requests an IU of it.
  abbrev pub is_top : ℕ → Bool
  is_top j = is_sink c j || producing_no_request c j

  -- What calls between two states do: code is added, and from `i` on nothing changes.
  pub record Progresses (s s' : State) (i : ℕ) : Type 0 where
    pub grows : (j : ℕ) → occurs j s.code ≡ true → occurs j s'.code ≡ true
    pub code_same : (k : ℕ) → i ≤ k → occurs k s'.code ≡ occurs k s.code
    pub requests_same : (k : ℕ) → i ≤ k → s'.requests k ≡ s.requests k
    pub tops_same : (j : ℕ) → is_top j ≡ true → occurs j s'.code ≡ occurs j s.code

  pub Progresses-refl : (s : State) (i : ℕ) → Progresses s s i
  Progresses-refl s i = record {
    grows = λ j e. e;
    code_same = λ k l. refl;
    requests_same = λ k l. refl;
    tops_same = λ j e. refl;
  }

  pub Progresses-trans :
      (s s' s'' : State) (i : ℕ) → Progresses s s' i → Progresses s' s'' i → Progresses s s'' i
  Progresses-trans s s' s'' i p q = record {
    grows = λ j e. q.grows j (p.grows j e);
    code_same = λ k l. q.code_same k l ∙ p.code_same k l;
    requests_same = λ k l. q.requests_same k l ∙ p.requests_same k l;
    tops_same = λ j e. q.tops_same j e ∙ p.tops_same j e;
  }

  pub Progresses-le : (s s' : State) (i k : ℕ) → i ≤ k → Progresses s s' i → Progresses s s' k
  Progresses-le s s' i k l p = record {
    grows = p.grows;
    code_same = λ j b. p.code_same j (omega (arith, l, b));
    requests_same = λ j b. p.requests_same j (omega (arith, l, b));
    tops_same = p.tops_same;
  }

  pub uncoded_before :
      (s s' : State) (i j : ℕ)
      → Progresses s s' i
      → occurs j s'.code ≡ false
      → occurs j s.code ≡ false
  uncoded_before s s' i j p n = elim (Bool-cases (occurs j s.code)) [
    | inr not_ ↦ not_
    | inl yes_ ↦ let now = p.grows j yes_ in cc
  ]

  -- States that differ only in requests that were serviced for suboperators with code.
  pub record Alike (s s' : State) : Type 0 where
    pub computed_same : s'.computed ≡ s.computed
    pub requests_same : s'.requests ≡ s.requests
    pub code_same : s'.code ≡ s.code
    pub serviced_same :
        (r : ℕ) → occurs r s.code ≡ false → s'.serviced_requests r ≡ s.serviced_requests r

  pub IsGood-Alike : (s s' : State) (h : ℕ → ℕ) (m : ℕ) → Alike s s' → IsGood s h m → IsGood s' h m
  IsGood-Alike s s' h m a g =
      let at = λ (j : ℕ). ap (occurs j) a.code_same in
      record {
        counts = λ r l e.
            let e' = sym (at r) ∙ e in
            a.serviced_same r e' ∙ g.counts r l e' ∙ ap (λ f. h r + by_scope f r) (sym a.code_same);
        fresh = λ j l e. g.fresh j l (sym (at j) ∙ e);
        bounded = λ r l b t e e'. g.bounded r l b t (sym (at r) ∙ e) (sym (at (o.owner r)) ∙ e');
        computed_same = λ j n. ap (λ f. f j) a.computed_same ∙ g.computed_same j n ∙ sym (at j);
        ordered = subst (InOrder c) (sym a.code_same) g.ordered;
      }

  pub Alike-Progresses : (s s' : State) (i : ℕ) → Alike s s' → Progresses s s' i
  Alike-Progresses s s' i a =
      let at = λ (j : ℕ). ap (occurs j) a.code_same in
      record {
        grows = λ j e. at j ∙ e;
        code_same = λ k l. at k;
        requests_same = λ k l. ap (λ f. f k) a.requests_same;
        tops_same = λ j e. at j;
      }

  -- Suboperators with code whose last request is still to be counted.
  abbrev pub AllCounted : List ℕ → List ℕ → Type 0
  AllCounted code [] = Unit
  AllCounted code (j ∷ js) =
      (j < size) × (occurs j code ≡ true) × (generates_in_consume c j ≡ true) × AllCounted code js

  pub AllCounted-grows :
      (f g : List ℕ) (js : List ℕ)
      → ((j : ℕ) → occurs j f ≡ true → occurs j g ≡ true)
      → AllCounted f js
      → AllCounted g js
  AllCounted-grows f g [] more a = tt
  AllCounted-grows f g (j ∷ js) more (l, e, b, a) = (l, more j e, b, AllCounted-grows f g js more a)

  pub AllCounted-Reaches :
      (js : List ℕ) (rest : List Task) (s : State)
      → AllCounted s.code js
      → (s' : State) × Reaches c (map service js ++ rest) s rest s' × Alike s s'
  AllCounted-Reaches [] rest s a = (
    s,
    Reaches-refl c rest s,
    record {
      computed_same = refl;
      requests_same = refl;
      code_same = refl;
      serviced_same = λ r e. refl;
    },
  )
  AllCounted-Reaches (j ∷ js) rest s (l, e, b, a) =
      let (s', r, k) = AllCounted-Reaches js rest (served c j s) a in
      (
        s',
        Reaches-trans c (service j ∷ (map service js ++ rest)) (map service js ++ rest) rest s
            (served c j s) s'
            (Reaches-step c (service j) (map service js ++ rest) [] s (served c j s)
              (step-service_code c j s (o.vectorized j l) b))
            r,
        record {
          computed_same = k.computed_same;
          requests_same = k.requests_same;
          code_same = k.code_same;
          serviced_same = λ r n. k.serviced_same r n ∙ apart s j r e n;
        },
      )
    where
      apart :
          (s : State) (j r : ℕ)
          → occurs j s.code ≡ true
          → occurs r s.code ≡ false
          → (served c j s).serviced_requests r ≡ s.serviced_requests r
      apart s j r e n = elim (Bool-cases (r == j)) [
        | inl same ↦
            let both : occurs r s.code ≡ true = ap (λ k. occurs k s.code) (==→eq r j same) ∙ e in cc
        | inr differ ↦ rw differ refl
      ]
