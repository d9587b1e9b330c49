-- ===== src/Codegen/Orderly.antt =====
-- algebra/CompilationContext.cpp: pipelines in which every request can be met, and the order of code.
use inkfuse.Base.{
  ℕ, ◌+◌, ◌<◌, ◌≤◌, ◌≡◌, ◌≢◌, ◌⊎◌, inl, inr, refl, sym, ap, subst, ◌∙◌, true, false, some, List, [],
  ◌∷◌, arith, ◌==◌, if◌then◌else◌, length, Bool-cases, ==→eq,
}
use inkfuse.Algebra.{get_producers}
use inkfuse.Algebra.Repipe.{occurs}
use inkfuse.Codegen.{
  Context, is_sink, num_source_ius, provider, lacks_filters, requested_for_filters, requested,
  generates_in_open, generates_in_consume, producing_no_request,
}

-- How often requests are made for a filter.
abbrev pub times : ℕ → List (ℕ × ℕ) → ℕ
times r [] = 0
times r (d ∷ ds) = (if d.0 == r then 1 else 0) + times r ds

abbrev pub AllBelow : ℕ → List ℕ → Type 0
AllBelow m [] = Unit
AllBelow m (q ∷ qs) = (q < m) × AllBelow m qs

module _ (c : Context) where
  -- A suboperator below `m` provides the IU, and has a consumer.
  abbrev pub IsMet : ℕ → ℕ → ℕ → Type 0
  IsMet m op iu =
      (q : ℕ) × (provider c op iu ≡ some q)
      × (q < m)
      × (is_sink c q ≡ false)
      × (producing_no_request c q ≡ false)

  abbrev pub AreMet : ℕ → ℕ → List ℕ → Type 0
  AreMet m op [] = Unit
  AreMet m op (iu ∷ ius) = IsMet m op iu × AreMet m op ius

  -- What a scope requests is for filters behind it that are its own.
  abbrev pub FiltersAreMet : ℕ → (ℕ → ℕ) → ℕ → List (ℕ × ℕ) → Type 0
  FiltersAreMet size owner m [] = Unit
  FiltersAreMet size owner m (d ∷ ds) =
      (owner d.0 ≡ m)
      × (m < d.0)
      × (d.0 < size)
      × (generates_in_consume c d.0 ≡ false)
      × IsMet m d.0 d.1
      × FiltersAreMet size owner m ds

  -- One of the IUs is provided by `q`.
  abbrev pub Asks : ℕ → ℕ → List ℕ → Type 0
  Asks q op [] = ⊥
  Asks q op (iu ∷ ius) = (provider c op iu ≡ some q) ⊎ Asks q op ius

  -- The suboperators have the ids below `size`, in the order of the pipeline. What each of them
  -- requests, for itself or for its filters, is provided in front of it. As many IUs are requested for
  -- it as it has source IUs, some of them by its scope, which it then asks for itself.
  pub record IsOrderly (size : ℕ) : Type 0 where
    pub owner : ℕ → ℕ
    pub own_met : (i : ℕ) → i < size → AreMet i i (requested c i)
    pub filters_met : (i : ℕ) → i < size → FiltersAreMet size owner i (requested_for_filters c i)
    pub counted :
        (i : ℕ)
        → i < size
        → num_source_ius c i ≡ times i (requested_for_filters c (owner i)) + length (requested c i)
    pub owned :
        (i : ℕ)
        → i < size
        → (times i (requested_for_filters c (owner i)) ≡ 0)
          ⊎ ((owner i < size) × Asks (owner i) i (requested c i))
    pub sources :
        (i : ℕ)
        → i < size
        → generates_in_open c i ≡ true
        → (requested c i ≡ []) × (requested_for_filters c i ≡ [])
    pub others : (i : ℕ) → i < size → generates_in_open c i ≡ false → requested c i ≢ []
    pub by_consume :
        (i : ℕ)
        → i < size
        → generates_in_consume c i ≡ true
        → (generates_in_open c i ≡ false)
          × (length (requested c i) ≡ 1)
          × (requested_for_filters c i ≡ [])
    pub with_filters : (i : ℕ) → i < size → lacks_filters c i ≡ false
    pub vectorized : (i : ℕ) → i < size → c.only_vectorized i ≡ false
    pub producers : (i : ℕ) → i < size → AllBelow i (get_producers c.pipeline i)

  abbrev pub AreAnswered : List ℕ → ℕ → List ℕ → Type 0
  AreAnswered older op [] = Unit
  AreAnswered older op (iu ∷ ius) =
      ((q : ℕ) × (provider c op iu ≡ some q) × (occurs q older ≡ true)) × AreAnswered older op ius

  abbrev pub FiltersAreAnswered : List ℕ → List (ℕ × ℕ) → Type 0
  FiltersAreAnswered older [] = Unit
  FiltersAreAnswered older (d ∷ ds) =
      ((q : ℕ) × (provider c d.0 d.1 ≡ some q) × (occurs q older ≡ true))
      × FiltersAreAnswered older ds

  -- Code, the last suboperator first: each stands there once, and behind the suboperators that
  -- provide what it requested.
  abbrev pub InOrder : List ℕ → Type 0
  InOrder [] = Unit
  InOrder (i ∷ older) =
      AreAnswered older i (requested c i)
      × FiltersAreAnswered older (requested_for_filters c i)
      × (occurs i older ≡ false)
      × InOrder older

  module _ (size : ℕ) (o : IsOrderly size) where
    -- Filters are requested for by their own scope only.
    pub times_elsewhere :
        (i r : ℕ) → i < size → o.owner r ≢ i → times r (requested_for_filters c i) ≡ 0
    times_elsewhere i r l h = go (requested_for_filters c i) (o.filters_met i l)
      where
        go : (ds : List (ℕ × ℕ)) → FiltersAreMet size o.owner i ds → times r ds ≡ 0
        go [] m = refl
        go (d ∷ ds) (own, _, _, _, _, m) = elim (Bool-cases (d.0 == r)) [
          | inl e ↦ absurd (h (ap o.owner (sym (==→eq d.0 r e)) ∙ own))
          | inr e ↦ rw e (omega (arith, go ds m))
        ]

    -- They stand behind it.
    pub times_behind : (i r : ℕ) → i < size → r ≤ i → times r (requested_for_filters c i) ≡ 0
    times_behind i r l h = go (requested_for_filters c i) (o.filters_met i l)
      where
        go : (ds : List (ℕ × ℕ)) → FiltersAreMet size o.owner i ds → times r ds ≡ 0
        go [] m = refl
        go (d ∷ ds) (_, behind, _, _, _, m) =
            let e : (d.0 == r) ≡ false = ground (arith, behind, h) in rw e (omega (arith, go ds m))

  -- A suboperator with code has that of what it asks for.
  pub InOrder-Asks :
      (code : List ℕ) (i q : ℕ)
      → InOrder code
      → occurs i code ≡ true
      → Asks q i (requested c i)
      → occurs q code ≡ true
  unfolding occurs
  InOrder-Asks [] i q ord h a = cc
  InOrder-Asks (j ∷ older) i q (met, _, _, ord) h a = elim (Bool-cases (j == i)) [
    | inl here ↦
        let e : j ≡ i = ==→eq j i here in
        ground
          (arith, found (requested c i) (subst (λ k. AreAnswered older k (requested c k)) e met) a)
    | inr there ↦
        let h' : occurs i older ≡ true = ground (arith, h, there) in
        ground (arith, InOrder-Asks older i q ord h' a)
  ]
    where
      found : (ius : List ℕ) → AreAnswered older i ius → Asks q i ius → occurs q older ≡ true
      found [] met a = absurd a
      found (iu ∷ ius) ((p, e, h), met) (inl e') =
          let both : some p ≡ some q = sym e ∙ e' in
          let same : p ≡ q = cc both in subst (λ k. occurs k older ≡ true) same h
      found (iu ∷ ius) (_, met) (inr a) = found ius met a
