-- ===== src/Tests/Pipelines.antt =====
-- algebra/Pipeline.cpp: small pipelines.
use inkfuse.Base.{
  map, Bool, not, ◌&&◌, ◌==◌, ℕ, false, ◌+◌, ◌-◌, ◌≤◌, ◌<◌, ◌≡◌, ◌≢◌, refl, some, List, [], ◌∷◌,
  ◌++◌, length, drop,
}
use inkfuse.Algebra.{
  default, begin_vectorized, end_vectorized, Subop, Pipeline, new_pipeline, attach_all,
  attach_suboperator, add_edges, add_edge, provide, try_get_provider, get_producers, get_consumers,
  attach_continuation, build_new_pipeline, set_rof_strategy, end_scope,
}
use mathlib.Core.Option
use inkfuse.Algebra.Repipe.{
  occurs, insert_iu, range, find_subop, strong_end, read_ius, required_ius, build_subop,
  build_providers, build_sources, build_sinks, prepend, inputs, connect, repipe, insert_outputs,
  outputs_without_strong, repipe_all, all_outputs, insert_required, outputs_required,
  repipe_required,
}
use inkfuse.Algebra.Repipe.Sources.{AreSources, AreSinks}
use inkfuse.Algebra.Repipe.Inputs.{reads, repipe_lem}
use inkfuse.Algebra.Repipe.Outputs.{produced, read, released, repipe_outputs}
use inkfuse.Algebra.Graph.{
  IsMirrored, built_pipeline-IsMirrored, last_producer, providers_of, built_pipeline_providers,
}
use inkfuse.Algebra.Continuations.{
  with_current, dag_of, split_off, continuation, continuation_lem, second_continuation,
}
use inkfuse.Algebra.Fusion.{strategy_at, end_scope-strategies}

repipe_program : Unit {0}
unfolding new_pipeline attach_all attach_suboperator add_edges add_edge provide try_get_provider
    get_producers get_consumers occurs insert_iu range find_subop strong_end read_ius required_ius
    build_subop build_providers build_sources build_sinks prepend inputs connect repipe
    insert_outputs outputs_without_strong repipe_all all_outputs insert_required outputs_required
    repipe_required
repipe_program = tt

abbrev subop : ℕ → List ℕ → List ℕ → Subop
subop id source_ius ius = record {
  id = id;
  ius = ius;
  source_ius = source_ius;
  rof = default;
  incoming_strong_links = false;
  outgoing_strong_links = false;
  is_tuple_materializer = false;
}

-- a scan of two columns, and an expression on them
abbrev subops : List Subop
subops = subop 0 [] (10 ∷ 11 ∷ []) ∷ subop 1 (11 ∷ 10 ∷ []) (12 ∷ []) ∷ []

program : Unit {0}
unfolding new_pipeline attach_all attach_suboperator add_edges add_edge provide try_get_provider
    get_producers get_consumers set_rof_strategy end_scope strategy_at last_producer providers_of
program = tt

abbrev scan_pipeline : Pipeline
unfolding program
scan_pipeline = attach_all subops new_pipeline

producers_of_expression : get_producers (attach_all subops new_pipeline) 1 ≡ 0 ∷ 0 ∷ []
unfolding program
producers_of_expression = refl

built_pipeline-IsMirrored_example : IsMirrored (attach_all subops new_pipeline)
built_pipeline-IsMirrored_example = built_pipeline-IsMirrored subops

built_pipeline_providers_example :
    ((iu : ℕ) → try_get_provider (attach_all subops new_pipeline) iu ≡ last_producer subops iu)
    × (get_producers (attach_all subops new_pipeline) 2 ≡ []
        → get_producers
            (attach_suboperator (subop 2 (12 ∷ 10 ∷ []) []) (attach_all subops new_pipeline))
            2
          ≡ providers_of (last_producer subops) (12 ∷ 10 ∷ []))
built_pipeline_providers_example = built_pipeline_providers subops (subop 2 (12 ∷ 10 ∷ []) [])

continuation_lem_example :
    (attach_continuation (dag_of [] scan_pipeline [])
      ≡ some (
          dag_of []
            (split_off scan_pipeline)
            ((length scan_pipeline.suboperators, continuation) ∷ [])))
    × (result : Pipeline) × (build_new_pipeline (
          dag_of [] (attach_all (subop 2 (12 ∷ []) [] ∷ []) (split_off scan_pipeline)) (
            (length scan_pipeline.suboperators, attach_all (subop 3 [] (12 ∷ []) ∷ []) continuation)
            ∷ []))
        ≡ some (
            dag_of
              (with_current
                (with_current [] (attach_all (subop 2 (12 ∷ []) [] ∷ []) (split_off scan_pipeline)))
                result)
              new_pipeline
              []))
    × (result.suboperators ≡ subop 3 [] (12 ∷ []) ∷ subop 2 (12 ∷ []) [] ∷ [])
continuation_lem_example =
    continuation_lem [] scan_pipeline (subop 3 [] (12 ∷ []) ∷ []) (subop 2 (12 ∷ []) [] ∷ [])

-- the second continuation takes suboperators from the first
second_continuation_example :
    (p' : Pipeline) × (q' : Pipeline) × (build_new_pipeline
        (dag_of [] scan_pipeline ((2, new_pipeline) ∷ (2, new_pipeline) ∷ []))
      ≡ some (
          dag_of
            (with_current (with_current (with_current [] scan_pipeline) p') q')
            new_pipeline
            []))
    × (p'.suboperators ≡ new_pipeline.suboperators ++ drop 2 scan_pipeline.suboperators)
    × (q'.suboperators ≡ new_pipeline.suboperators ++ drop 2 p'.suboperators)
second_continuation_example = second_continuation [] scan_pipeline new_pipeline new_pipeline 2 2

end_scope-strategies_example :
    (length subops ≤ 1 → end_scope 1 subops ≡ subops)
    × (1 + 1 < length subops
        → (strategy_at (end_scope 1 subops) 1 ≡ some begin_vectorized)
          × (strategy_at (end_scope 1 subops) (length subops - 1) ≡ some end_vectorized))
    × (1 + 1 ≡ length subops → strategy_at (end_scope 1 subops) 1 ≡ some end_vectorized)
    × ((i : ℕ)
        → i ≢ 1
        → i ≢ length subops - 1
        → strategy_at (end_scope 1 subops) i ≡ strategy_at subops i)
end_scope-strategies_example = end_scope-strategies 1 subops

-- the IU 11 has no value, and the last suboperator reads 12
abbrev queue : List Subop
queue = subops ++ subop 2 (12 ∷ []) [] ∷ []

abbrev query : Pipeline
query = record new_pipeline { suboperators = queue }

abbrev no_value : ℕ → Bool
no_value iu = iu == 11

abbrev new_id : ℕ → ℕ
new_id n = 100 + n

-- the expression alone reads 11 and 10 from outside
expression_is_repiped :
    Option.map
      (λ (q : Pipeline). map (λ (s : Subop). s.id) q.suboperators)
      (repipe_required no_value new_id 50 query 1 2)
    ≡ some (100 ∷ 102 ∷ 1 ∷ 103 ∷ [])
unfolding repipe_program
expression_is_repiped = refl

repipe_lem_example :
    (q : Pipeline) × (sources : List Subop) × (sinks : List Subop) × (repipe no_value new_id 50
        query 1 2
        (12 ∷ [])
      ≡ some q)
    × (q.suboperators ≡ sources ++ (range query 1 2 ++ sinks))
    × AreSources no_value 50 (reads (range query 1 2)) sources
    × AreSinks (12 ∷ []) sinks
    × (q.parallel_codegen ≡ query.parallel_codegen)
unfolding new_pipeline
repipe_lem_example =
    repipe_lem no_value new_id 50 query 1 2 (12 ∷ []) (subop 1 (11 ∷ 10 ∷ []) (12 ∷ []))
      (subop 1 (11 ∷ 10 ∷ []) (12 ∷ [])) refl refl refl refl refl refl

repipe_outputs_example :
    ((m : List ℕ) × (repipe_required no_value new_id 50 query 0 2
        ≡ repipe no_value new_id 50 query 0 2 m)
      × ((x : ℕ)
          → occurs x m ≡ (
              (not (no_value x) && produced (range query 0 2) x)
              && read (drop 2 query.suboperators) x)))
    × ((m : List ℕ) × (repipe_all no_value new_id 50 query 0 2
          ≡ repipe no_value new_id 50 query 0 2 m)
        × ((x : ℕ) → occurs x m ≡ (not (no_value x) && released (range query 0 2) x)))
repipe_outputs_example = repipe_outputs no_value new_id 50 query 0 2
