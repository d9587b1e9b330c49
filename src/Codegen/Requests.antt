-- ===== src/Codegen/Requests.antt =====
-- algebra/CompilationContext.cpp: the requests that a suboperator makes when it is opened.
use inkfuse.Base.{
  ℕ, ◌+◌, ◌<◌, ◌≤◌, ◌≡◌, ◌≢◌, refl, sym, ap, subst, ◌∙◌, true, false, some, List, [], ◌∷◌, ◌++◌,
  map, arith, ◌==◌, if◌then◌else◌, eq→==,
}
use inkfuse.Algebra.Repipe.{occurs}
use inkfuse.Codegen.{
  Context, State, Task, request, consume, service, is_sink, num_source_ius, provider,
  requested_for_filters, generates_in_consume, producing_no_request,
}
use inkfuse.Codegen.Steps.{
  Reaches, Reaches-refl, Reaches-trans, Reaches-step, served, step-service, step-consume,
}
use inkfuse.Codegen.Orderly.{times, IsOrderly, FiltersAreMet, FiltersAreAnswered}
use inkfuse.Codegen.Progress.{
  by_scope, IsGood, IsGood-same, bumped, IsGood-served, Progresses, Progresses-refl,
  Progresses-trans, Progresses-le, IsGood-Alike, Alike-Progresses, AllCounted, AllCounted-Reaches,
}

module _ (c : Context) (size : ℕ) (o : IsOrderly c size) where
  -- The provider `q` has its code, and `r` is about to consume the IU.
  pub record Served (q r iu : ℕ) (rest : List Task) (s : State) (h : ℕ → ℕ) (m : ℕ) : Type 0 where
    pub after : State
    pub counted : List ℕ
    pub reaches :
        Reaches c
          (request r iu ∷ rest)
          s
          (consume r iu ∷ service r ∷ (map service counted ++ rest))
          after
    pub progresses : Progresses c size o s after (q + 1)
    pub has_code : occurs q after.code ≡ true
    pub good : IsGood c size o after h m
    pub all_counted : AllCounted c size o after.code counted

  -- Requests are met by the suboperators below `n`.
  abbrev pub Serves : ℕ → Type 0
  Serves n =
      (q r iu : ℕ) (rest : List Task) (s : State) (h : ℕ → ℕ) (m : ℕ)
      → q < n
      → q < m
      → q < size
      → provider c r iu ≡ some q
      → is_sink c q ≡ false
      → producing_no_request c q ≡ false
      → IsGood c size o s h m
      → Served q r iu rest s h m

  -- A request that is not the last one is made, met and counted.
  pub record Counted (q r iu : ℕ) (rest : List Task) (s : State) (h : ℕ → ℕ) (m : ℕ) : Type 0 where
    pub after : State
    pub reaches : Reaches c (request r iu ∷ rest) s rest after
    pub progresses : Progresses c size o s after (q + 1)
    pub has_code : occurs q after.code ≡ true
    pub good : IsGood c size o after (bumped c size o r h) m

  pub Served-Counted :
      (q r iu : ℕ) (rest : List Task) (s : State) (h : ℕ → ℕ) (m : ℕ)
      → m ≤ r
      → q < r
      → r < size
      → occurs r s.code ≡ false
      → generates_in_consume c r ≡ false
      → (o.owner r < m
          → 0 < times r (requested_for_filters c (o.owner r))
          → h r + times r (requested_for_filters c (o.owner r)) + 1 < num_source_ius c r)
      → ((code : List ℕ)
          → ((k : ℕ) → q + 1 ≤ k → occurs k code ≡ occurs k s.code)
          → h r + by_scope c size o code r + 1 ≢ num_source_ius c r)
      → Served q r iu rest s h m
      → Counted q r iu rest s h m
  Served-Counted q r iu rest s h m l behind b n not_here room open_ v =
      let s₁ = v.after in
      let s₂ = served c r s₁ in
      let n₁ : occurs r s₁.code ≡ false = v.progresses.code_same r (omega (arith, behind)) ∙ n in
      let k : s₁.serviced_requests r ≡ h r + by_scope c size o s₁.code r = v.good.counts r b n₁ in
      let not_all : s₁.serviced_requests r + 1 ≢ num_source_ius c r =
        (λ e. open_ s₁.code v.progresses.code_same (omega (arith, k, e))) in
      let (s₃, runs, alike) = AllCounted-Reaches c size o v.counted rest s₂ v.all_counted in
      let tail = map service v.counted ++ rest in
      let one =
        Reaches-step c (consume r iu) (service r ∷ tail) [] s₁ s₁
          (step-consume c r iu s₁ not_here) in
      let two = Reaches-step c (service r) tail [] s₁ s₂ (step-service c r s₁ not_all) in
      record {
        after = s₃;
        reaches =
            Reaches-trans c (request r iu ∷ rest) (consume r iu ∷ service r ∷ tail) rest s s₁ s₃
              v.reaches
              (Reaches-trans c (consume r iu ∷ service r ∷ tail) (service r ∷ tail) rest s₁ s₁ s₃
                one (Reaches-trans c (service r ∷ tail) tail rest s₁ s₂ s₃ two runs));
        progresses = Progresses-trans c size o s s₁ s₃ (q + 1) v.progresses (
            Progresses-trans c size o s₁ s₂ s₃ (q + 1)
              (record {
                grows = λ j e. e;
                code_same = λ k l. refl;
                requests_same = λ k l. refl;
                tops_same = λ j e. refl;
              })
              (Alike-Progresses c size o s₂ s₃ (q + 1) alike));
        has_code = ap (occurs q) alike.code_same ∙ v.has_code;
        good =
            IsGood-Alike c size o s₂ s₃ (bumped c size o r h) m alike
              (IsGood-served c size o s₁ h m r l (λ low t _. room low t) v.good);
      }

  -- What a scope `i` requests for its filters.
  pub record FiltersServed (i : ℕ) (ds : List (ℕ × ℕ)) (rest : List Task) (s : State) (h : ℕ → ℕ)
      : Type 0 where
    pub after : State
    pub reaches : Reaches c (map (λ d. request d.0 d.1) ds ++ rest) s rest after
    pub progresses : Progresses c size o s after i
    pub answered : FiltersAreAnswered c after.code ds
    pub good : IsGood c size o after (λ k. times k ds + h k) i

  pub filters_served :
      (i : ℕ) (ds : List (ℕ × ℕ)) (rest : List Task) (s : State) (h : ℕ → ℕ)
      → Serves i
      → i < size
      → occurs i s.code ≡ false
      → FiltersAreMet c size o.owner i ds
      → ((r : ℕ)
          → r < size
          → o.owner r ≡ i
          → 0 < times r ds
          → (i < r) × (occurs r s.code ≡ false) × (h r + times r ds < num_source_ius c r))
      → IsGood c size o s h i
      → FiltersServed i ds rest s h
  filters_served i [] rest s h serves b n met room g = record {
    after = s;
    reaches = Reaches-refl c rest s;
    progresses = Progresses-refl c size o s i;
    answered = tt;
    good = IsGood-same c size o s h (λ k. 0 + h k) i (λ k. omega arith) g;
  }
  filters_served i ((r, iu) ∷ ds) rest s h serves b n
        (own, behind, low, not_here, (q, e, l, not_sink, asked), met) room g =
      let here : (r == r) ≡ true = eq→== r r refl in
      let there : 0 < times r ((r, iu) ∷ ds) = rw here (omega arith) in
      let (_, gone, fits) = room r low own there in
      let fits' : h r + (1 + times r ds) < num_source_ius c r =
        subst (λ b. h r + ((if b then 1 else 0) + times r ds) < num_source_ius c r) here fits in
      let others = map (λ d. request d.0 d.1) ds ++ rest in
      let k =
        Served-Counted q r iu others s h i (omega (arith, behind)) (omega (arith, l, behind)) low
          gone not_here (λ out _. absurd (omega (arith, out, own)))
          (λ code same all.
            let none_ : occurs (o.owner r) code ≡ false =
              subst (λ x. occurs x code ≡ false) (sym own) (same i (omega (arith, l)) ∙ n) in
            let zero_ : by_scope c size o code r ≡ 0 =
              ap (λ b. if b then times r (requested_for_filters c (o.owner r)) else 0) none_ in
            omega (arith, zero_, all, fits'))
          (serves q r iu others s h i l l (omega (arith, l, b)) e not_sink asked g) in
      let p = Progresses-le c size o s k.after (q + 1) i (omega (arith, l)) k.progresses in
      let more =
        filters_served i ds rest k.after (bumped c size o r h) serves b
          (p.code_same i (omega arith) ∙ n) met
          (λ x b' own' some_.
            let (far, gone', fits'') = room x b' own' (omega (arith, some_)) in
            (far, p.code_same x (omega (arith, far)) ∙ gone', omega (arith, fits'')))
          k.good in
      record {
        after = more.after;
        reaches =
            Reaches-trans c (request r iu ∷ others) others rest s k.after more.after k.reaches
              more.reaches;
        progresses = Progresses-trans c size o s k.after more.after i p more.progresses;
        answered = ((q, e, more.progresses.grows q k.has_code), more.answered);
        good =
            IsGood-same c size o more.after (λ x. times x ds + bumped c size o r h x)
              (λ x. times x ((r, iu) ∷ ds) + h x) i (λ x. omega arith) more.good;
      }
