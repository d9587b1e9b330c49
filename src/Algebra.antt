-- ===== src/Algebra.antt =====
-- algebra/Pipeline.h and Pipeline.cpp: suboperators, pipelines and the pipeline DAG.
--
-- A suboperator and an IU are pointers in the source; here their `id` stands for the pointer. The
-- runtime state and the tasks of the DAG are left out.
pub mod Graph
pub mod Continuations
pub mod Fusion
pub mod Repipe
use inkfuse.Base.{
  ℕ, zero, suc, ◌+◌, ◌-◌, Bool, true, false, Option, none, some, List, [], ◌∷◌, ◌++◌, ltb, ◌==◌,
  if◌then◌else◌, length, drop, update,
}
use mathlib.Core.Option

pub data RofStrategy : Type 0 where
  default begin_vectorized end_vectorized : RofStrategy

pub record Subop : Type 0 where
  pub id : ℕ
  pub ius : List ℕ
  pub source_ius : List ℕ
  pub rof : RofStrategy
  pub incoming_strong_links : Bool
  pub outgoing_strong_links : Bool
  pub is_tuple_materializer : Bool

-- The maps of the graph are empty, and the map of providers is `none`, where the source's have no
-- entry.
pub record Pipeline : Type 0 where
  pub suboperators : List Subop
  pub incoming_edges : ℕ → List ℕ
  pub outgoing_edges : ℕ → List ℕ
  pub iu_providers : ℕ → Option ℕ
  pub parallel_codegen : Bool

unfoldable pub new_pipeline : Pipeline
new_pipeline = record {
  suboperators = [];
  incoming_edges = λ _. [];
  outgoing_edges = λ _. [];
  iu_providers = λ _. none;
  parallel_codegen = true;
}

unfoldable pub get_consumers : Pipeline → ℕ → List ℕ
get_consumers p subop = p.outgoing_edges subop

unfoldable pub get_producers : Pipeline → ℕ → List ℕ
get_producers p subop = p.incoming_edges subop

unfoldable pub try_get_provider : Pipeline → ℕ → Option ℕ
try_get_provider p iu = p.iu_providers iu

-- the two writes to the graph for one provider
unfoldable pub add_edge : ℕ → ℕ → Pipeline → Pipeline
add_edge provider subop p = record p {
  outgoing_edges = update p.outgoing_edges provider (p.outgoing_edges provider ++ subop ∷ []);
  incoming_edges = update p.incoming_edges subop (p.incoming_edges subop ++ provider ∷ []);
}

-- the loop over the source IUs
unfoldable pub add_edges : ℕ → List ℕ → Pipeline → Pipeline
unfolding try_get_provider add_edge
add_edges subop [] p = p
add_edges subop (iu ∷ ius) p = elim (try_get_provider p iu) [
  | none ↦ add_edges subop ius p
  | some provider ↦ add_edges subop ius (add_edge provider subop p)
]

-- the loop over the produced IUs
unfoldable pub provide : ℕ → List ℕ → (ℕ → Option ℕ) → ℕ → Option ℕ
provide subop [] providers = providers
provide subop (iu ∷ ius) providers = provide subop ius (update providers iu (some subop))

unfoldable pub attach_suboperator : Subop → Pipeline → Pipeline
unfolding add_edges provide
attach_suboperator s p =
    let linked = add_edges s.id s.source_ius p in
    record linked {
      iu_providers = provide s.id s.ius linked.iu_providers;
      suboperators = linked.suboperators ++ s ∷ [];
    }

unfoldable pub attach_all : List Subop → Pipeline → Pipeline
attach_all [] p = p
attach_all (s ∷ ss) p = attach_all ss (attach_suboperator s p)

-- `PipelineDAG`, as far as the order of its pipelines goes
pub record Dag : Type 0 where
  pub pipelines : List Pipeline
  pub continuations : List (ℕ × Pipeline)

unfoldable pub back {ℓ} : {A : Type ℓ} → List A → Option A
back [] = none
back (x ∷ []) = some x
back (x ∷ y ∷ xs) = back (y ∷ xs)

unfoldable pub set_back {ℓ} : {A : Type ℓ} → A → List A → List A
set_back a [] = []
set_back a (x ∷ []) = a ∷ []
set_back a (x ∷ y ∷ xs) = x ∷ set_back a (y ∷ xs)

-- the loop over the continuations; `none` is a failed assertion
unfoldable pub append_continuations : List Pipeline → List (ℕ × Pipeline) → Option (List Pipeline)
unfolding attach_all back
append_continuations pipelines [] = some pipelines
append_continuations pipelines ((subop_idx, pipe) ∷ cs) = elim (back pipelines) [
  | none ↦ none
  | some curr_pipe ↦
      append_continuations
        (pipelines ++ attach_all (drop subop_idx curr_pipe.suboperators) pipe ∷ []) cs
]

unfoldable pub build_new_pipeline : Dag → Option Dag
unfolding append_continuations
build_new_pipeline dag =
    Option.map
      (λ pipelines. record { pipelines = pipelines ++ new_pipeline ∷ []; continuations = [] })
      (append_continuations dag.pipelines dag.continuations)

unfoldable pub attach_continuation : Dag → Option Dag
unfolding back set_back new_pipeline
attach_continuation dag = elim (back dag.pipelines) [
  | none ↦ none
  | some curr ↦ some (record {
    pipelines = set_back (record curr { parallel_codegen = false }) dag.pipelines;
    continuations =
        dag.continuations
        ++ (length curr.suboperators, record new_pipeline { parallel_codegen = false }) ∷ [];
  })
]

-- `setROFStrategy` on the suboperator at an index
unfoldable pub set_rof_strategy : ℕ → RofStrategy → List Subop → List Subop
set_rof_strategy i r [] = []
set_rof_strategy zero r (s ∷ ss) = record s { rof = r } ∷ ss
set_rof_strategy (suc i) r (s ∷ ss) = s ∷ set_rof_strategy i r ss

-- the destructor of `ROFScopeGuard`
unfoldable pub end_scope : ℕ → List Subop → List Subop
unfolding set_rof_strategy
end_scope size_at_start subops =
    if ltb size_at_start (length subops)
    then set_rof_strategy (length subops - 1) end_vectorized
        (set_rof_strategy size_at_start begin_vectorized subops)
    else subops
