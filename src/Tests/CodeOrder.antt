-- ===== src/Tests/CodeOrder.antt =====
-- algebra/CompilationContext.cpp: the code of a small pipeline.
use inkfuse.Base.{
  map, true, false, ◌==◌, if◌then◌else◌, ℕ, zero, suc, ◌+◌, ◌<◌, ◌≡◌, ◌≢◌, ◌⊎◌, inl, inr, refl,
  arith, List, [], ◌∷◌, length,
}
use inkfuse.Runtime.Run.{ok, ◌>>=◌}
use inkfuse.Algebra.{
  default, Subop, new_pipeline, attach_all, attach_suboperator, add_edges, add_edge, provide,
  try_get_provider, get_producers,
}
use inkfuse.Algebra.Repipe.{occurs}
use inkfuse.Codegen.{
  Overrides, source, by_children, by_consume, filter_scope, filter_logic, Context, State, is_sink,
  num_source_ius, find_provider, provider, requested_for_filters, lacks_filters, requested,
  generates_in_open, generates_in_consume, producing_no_request, ready, generate, open_requests,
  step, run, select, sinks, compile,
}
use inkfuse.Codegen.Orderly.{times, AllBelow, AreMet, FiltersAreMet, Asks, IsOrderly, InOrder}
use inkfuse.Codegen.Compile.{compile_ends}

order_program : Unit {0}
unfolding new_pipeline attach_all attach_suboperator add_edges add_edge provide try_get_provider
    get_producers occurs is_sink num_source_ius find_provider provider requested_for_filters
    lacks_filters requested generates_in_open generates_in_consume producing_no_request ready
    generate open_requests step run select sinks compile
order_program = tt

abbrev op : ℕ → List ℕ → List ℕ → Subop
op id source_ius ius = record {
  id = id;
  ius = ius;
  source_ius = source_ius;
  rof = default;
  incoming_strong_links = false;
  outgoing_strong_links = false;
  is_tuple_materializer = false;
}

-- a scan of two columns, a filter by the second one, and a sink
abbrev op_at : ℕ → Subop
op_at i =
    if i == 0
    then op 0 [] (10 ∷ [])
    else if i == 1
    then op 1 (10 ∷ []) (11 ∷ [])
    else if i == 2
    then op 2 (10 ∷ []) (12 ∷ [])
    else if i == 3
    then op 3 (12 ∷ []) (13 ∷ [])
    else if i == 4
    then op 4 (13 ∷ 11 ∷ []) (14 ∷ [])
    else op i (14 ∷ []) []

abbrev overrides_at : ℕ → Overrides
overrides_at i =
    if i == 0
    then source
    else if i == 3
    then filter_scope ((4, 11) ∷ [])
    else if i == 4
    then filter_logic
    else if i == 5
    then by_consume
    else by_children

abbrev filtered_scan : Context
unfolding order_program
filtered_scan = record {
  pipeline = attach_all (map op_at (0 ∷ 1 ∷ 2 ∷ 3 ∷ 4 ∷ 5 ∷ [])) new_pipeline;
  subop = op_at;
  overrides = overrides_at;
  only_vectorized = λ _. false;
}

-- The code of the filter stands behind that of its scope, and that of the column in front of it.
code_of_filtered_scan :
    (compile filtered_scan 60 >>= λ s. ok s.code) ≡ ok (5 ∷ 4 ∷ 3 ∷ 2 ∷ 1 ∷ 0 ∷ [])
unfolding order_program
code_of_filtered_scan = refl

up_to_6 : (P : ℕ → Type 0) → P 0 → P 1 → P 2 → P 3 → P 4 → P 5 → (i : ℕ) → i < 6 → P i
up_to_6 P a b c d e f zero l = a
up_to_6 P a b c d e f (suc zero) l = b
up_to_6 P a b c d e f (suc (suc zero)) l = c
up_to_6 P a b c d e f (suc (suc (suc zero))) l = d
up_to_6 P a b c d e f (suc (suc (suc (suc zero)))) l = e
up_to_6 P a b c d e f (suc (suc (suc (suc (suc zero))))) l = f
up_to_6 P a b c d e f (suc (suc (suc (suc (suc (suc i)))))) l = absurd (omega (arith, l))

filtered_scan-IsOrderly : IsOrderly filtered_scan 6
unfolding order_program
filtered_scan-IsOrderly = record {
  owner = λ _. 3;
  own_met =
      up_to_6 (λ i. AreMet filtered_scan i i (requested filtered_scan i)) tt
        ((0, refl, omega arith, refl, refl), tt) ((0, refl, omega arith, refl, refl), tt)
        ((2, refl, omega arith, refl, refl), tt) ((3, refl, omega arith, refl, refl), tt)
        ((4, refl, omega arith, refl, refl), tt);
  filters_met =
      up_to_6
        (λ i. FiltersAreMet filtered_scan 6 (λ _. 3) i (requested_for_filters filtered_scan i)) tt
        tt tt (refl, omega arith, omega arith, refl, (1, refl, omega arith, refl, refl), tt) tt tt;
  counted =
      up_to_6
        (λ i.
          num_source_ius filtered_scan i
          ≡ times i (requested_for_filters filtered_scan 3) + length (requested filtered_scan i))
        refl refl refl refl refl refl;
  owned =
      up_to_6
        (λ i.
          (times i (requested_for_filters filtered_scan 3) ≡ 0)
          ⊎ ((3 < 6) × Asks filtered_scan 3 i (requested filtered_scan i)))
        (inl refl) (inl refl) (inl refl) (inl refl) (inr (omega arith, inl refl)) (inl refl);
  sources =
      up_to_6
        (λ i.
          generates_in_open filtered_scan i ≡ true
          → (requested filtered_scan i ≡ []) × (requested_for_filters filtered_scan i ≡ []))
        (λ _. (refl, refl)) (λ e. absurd cc) (λ e. absurd cc) (λ e. absurd cc) (λ e. absurd cc)
        (λ e. absurd cc);
  others =
      up_to_6 (λ i. generates_in_open filtered_scan i ≡ false → requested filtered_scan i ≢ [])
        (λ e. absurd cc) (λ _ e. absurd cc) (λ _ e. absurd cc) (λ _ e. absurd cc) (λ _ e. absurd cc)
        (λ _ e. absurd cc);
  by_consume =
      up_to_6
        (λ i.
          generates_in_consume filtered_scan i ≡ true
          → (generates_in_open filtered_scan i ≡ false)
            × (length (requested filtered_scan i) ≡ 1)
            × (requested_for_filters filtered_scan i ≡ []))
        (λ e. absurd cc) (λ e. absurd cc) (λ e. absurd cc) (λ e. absurd cc) (λ e. absurd cc)
        (λ _. (refl, refl, refl));
  with_filters = up_to_6 (λ i. lacks_filters filtered_scan i ≡ false) refl refl refl refl refl refl;
  vectorized = λ i l. refl;
  producers =
      up_to_6 (λ i. AllBelow i (get_producers filtered_scan.pipeline i)) tt (omega arith, tt)
        (omega arith, tt) (omega arith, tt) (omega arith, (omega arith, tt)) (omega arith, tt);
}

compile_ends_example :
    (fuel : ℕ) × (s : State) × (compile filtered_scan fuel ≡ ok s)
    × InOrder filtered_scan s.code
    × ((j : ℕ) → occurs j (sinks filtered_scan) ≡ true → occurs j s.code ≡ true)
unfolding order_program
compile_ends_example = compile_ends filtered_scan 6 filtered_scan-IsOrderly (
  (omega arith, (omega arith, (omega arith, (omega arith, (omega arith, (omega arith, tt)))))),
  (refl, (refl, (refl, (refl, (refl, (refl, tt)))))),
)
