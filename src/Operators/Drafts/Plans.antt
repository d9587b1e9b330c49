-- ===== src/Operators/Drafts/Plans.antt =====
-- algebra/Aggregation.cpp: the IUs of a plan.
use inkfuse.Base.{
  ℕ, ◌+◌, ◌-◌, ◌≡◌, refl, sym, ap, subst, ◌∙◌, inl, inr, true, List, [], ◌∷◌, map, Bool-cases,
}
use inkfuse.Runtime.Run.{Run, ok, throws, diverges, >>=-eq-ok}
use inkfuse.Algebra.Repipe.{occurs}
use inkfuse.Operators.Types.{Iu}
use inkfuse.Operators.Aggregates.{
  Description, AggState, RegistryEntry, lookup_subops, Granule, greater, insert_granule,
  insert_granules, collect, last_size, align, plan_functions, Plan, plan,
}
use inkfuse.Operators.Closed.{Within}
use inkfuse.Operators.Drafts.Aggregation.{granule_ius, result_ius}

abbrev pub agg_ius : List Description → List ℕ
agg_ius = map λ d. d.agg_iu.id

abbrev pub agg_outs : List Description → List ℕ
agg_outs = map λ d. d.out

insert_granule-Within :
    (g : Granule) (hs : List Granule) (p : List ℕ)
    → occurs g.iu.id p ≡ true
    → Within (granule_ius hs) p
    → Within (granule_ius (insert_granule g hs)) p
unfolding insert_granule
insert_granule-Within g [] p h w = (h, tt)
insert_granule-Within g (k ∷ hs) p h (here, w) = elim (Bool-cases (greater g k)) [
  | inl front ↦ rw front (h, (here, w))
  | inr e ↦ elim (Bool-cases (greater k g)) [
    | inl later ↦ rw (e, later) (here, insert_granule-Within g hs p h w)
    | inr same ↦ rw (e, same) (here, w)
  ]
]

insert_granules-Within :
    (iu : Iu) (ss : List AggState) (hs : List Granule) (p : List ℕ)
    → occurs iu.id p ≡ true
    → Within (granule_ius hs) p
    → Within (granule_ius (insert_granules iu ss hs)) p
unfolding insert_granules
insert_granules-Within iu [] hs p h w = w
insert_granules-Within iu (s ∷ ss) hs p h w =
    let g : Granule = record { iu = iu; state = s } in
    insert_granules-Within iu ss (insert_granule g hs) p h (insert_granule-Within g hs p h w)

collect-Within :
    (ds : List Description) (hs : List Granule) (functions : List (Description × RegistryEntry))
    (all : List Granule) (p : List ℕ)
    → collect ds hs ≡ ok (functions, all)
    → Within (agg_ius ds) p
    → Within (granule_ius hs) p
    → Within (granule_ius all) p × (map (λ f. f.0) functions ≡ ds)
unfolding collect
collect-Within [] hs functions all p e v w =
    let same : hs ≡ all = cc e in
    let none_ : [] ≡ functions = cc e in
    (subst (λ gs. Within (granule_ius gs) p) same w, ap (map (λ f. f.0)) (sym none_))
collect-Within (d ∷ ds) hs functions all p e (here, v) w =
    let (entry, found, e') = >>=-eq-ok (lookup_subops d) _ e in
    let hs' = insert_granules d.agg_iu entry.granules hs in
    let ((functions', all'), r, e'') = >>=-eq-ok (collect ds hs') _ e' in
    let same : all' ≡ all = cc e'' in
    let these : (d, entry) ∷ functions' ≡ functions = cc e'' in
    let (w', names) =
      collect-Within ds hs' functions' all' p r v
        (insert_granules-Within d.agg_iu entry.granules hs p here w) in
    (
      subst (λ gs. Within (granule_ius gs) p) same w',
      ap (map (λ f. f.0)) (sym these) ∙ ap (◌∷◌ d) names,
    )

result_ius-plan_functions :
    (functions : List (Description × RegistryEntry)) (gs : List Granule) (offset : ℕ)
    → result_ius (plan_functions functions gs offset) ≡ agg_outs (map (λ f. f.0) functions)
unfolding plan_functions
result_ius-plan_functions [] gs offset = refl
result_ius-plan_functions ((d, entry) ∷ functions) gs offset =
    ap (◌∷◌ d.out) (result_ius-plan_functions functions gs offset)

-- The granules of a plan are over the aggregated IUs, and its results are the IUs made for them.
pub plan_ius :
    (key_size : ℕ) (ds : List Description) (p : Plan) (provided : List ℕ)
    → plan key_size ds ≡ ok p
    → Within (agg_ius ds) provided
    → Within (granule_ius p.granules) provided × (result_ius p.compute ≡ agg_outs ds)
unfolding plan
plan_ius key_size ds p provided e w =
    let ((functions, to_compute), c, e') = >>=-eq-ok (collect ds []) _ e in
    let (step, _, e'') = >>=-eq-ok (last_size to_compute) _ e' in
    let (aligned, _, done) = >>=-eq-ok (align (key_size + 1) key_size step 0) _ e'' in
    let (granules, names) = collect-Within ds [] functions to_compute provided c w tt in
    subst Facts done (
      granules,
      result_ius-plan_functions functions to_compute (aligned - key_size) ∙ ap agg_outs names,
    )
  where
    Facts : Run Plan → Type 0
    Facts (ok p) = Within (granule_ius p.granules) provided × (result_ius p.compute ≡ agg_outs ds)
    Facts throws = ⊥
    Facts diverges = ⊥
