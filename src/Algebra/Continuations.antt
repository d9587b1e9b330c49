-- ===== src/Algebra/Continuations.antt =====
-- algebra/Pipeline.cpp: `attachContinuation` and `buildNewPipeline` of the pipeline DAG.
use inkfuse.Base.{
  ℕ, ◌≡◌, refl, sym, ap, ◌∙◌, false, none, some, List, [], ◌∷◌, ◌++◌, length, drop, drop-append,
}
use mathlib.Core.Option
use mathlib.Core.List.{append-nil, append_assoc}
use inkfuse.Algebra.{
  Subop, Pipeline, new_pipeline, attach_suboperator, attach_all, Dag, back, set_back,
  append_continuations, build_new_pipeline, attach_continuation,
}
use inkfuse.Algebra.Graph.{add_edges_lem}

-- The pipelines of a DAG in which `curr` is the current one.
unfoldable pub with_current : List Pipeline → Pipeline → List Pipeline
with_current older curr = older ++ curr ∷ []

pub back_lem {ℓ} : {A : Type ℓ} (xs : List A) (x : A) → back (xs ++ x ∷ []) ≡ some x
unfolding back
back_lem [] x = refl
back_lem (y ∷ []) x = refl
back_lem (y ∷ z ∷ xs) x = back_lem (z ∷ xs) x

pub set_back_lem {ℓ} :
    {A : Type ℓ} (xs : List A) (x y : A) → set_back y (xs ++ x ∷ []) ≡ xs ++ y ∷ []
unfolding set_back
set_back_lem [] x y = refl
set_back_lem (w ∷ []) x y = refl
set_back_lem (w ∷ z ∷ xs) x y = ap (◌∷◌ w) (set_back_lem (z ∷ xs) x y)

pub suboperators-attach_all :
    (ss : List Subop) (p : Pipeline) → (attach_all ss p).suboperators ≡ p.suboperators ++ ss
unfolding attach_all attach_suboperator
suboperators-attach_all [] p = sym (append-nil p.suboperators)
suboperators-attach_all (s ∷ ss) p =
    let (_, kept, _) = add_edges_lem s.id s.source_ius p in
    suboperators-attach_all ss (attach_suboperator s p)
    ∙ ap (λ xs. (xs ++ s ∷ []) ++ ss) kept
    ∙ append_assoc p.suboperators (s ∷ []) ss

append_one :
    (pipelines : List Pipeline) (curr pipe : Pipeline) (idx : ℕ) (cs : List (ℕ × Pipeline))
    → append_continuations (with_current pipelines curr) ((idx, pipe) ∷ cs)
      ≡ append_continuations
          (with_current
            (with_current pipelines curr)
            (attach_all (drop idx curr.suboperators) pipe))
          cs
unfolding append_continuations with_current
append_one pipelines curr pipe idx cs =
    ap
      (λ o. elim o [
        | none ↦ none
        | some c ↦
            append_continuations
              ((pipelines ++ curr ∷ []) ++ attach_all (drop idx c.suboperators) pipe ∷ []) cs
      ])
      (back_lem pipelines curr)

-- The current pipeline when `attachContinuation` returns, and the pipeline that it returns.
abbrev pub split_off : Pipeline → Pipeline
split_off curr = record curr { parallel_codegen = false }

abbrev pub continuation : Pipeline
unfolding new_pipeline
continuation = record new_pipeline { parallel_codegen = false }

-- A DAG whose current pipeline is `curr`.
abbrev pub dag_of : List Pipeline → Pipeline → List (ℕ × Pipeline) → Dag
dag_of older curr cs = record { pipelines = with_current older curr; continuations = cs }

attached_lem :
    (older : List Pipeline) (curr : Pipeline)
    → attach_continuation (dag_of older curr [])
      ≡ some (dag_of older (split_off curr) ((length curr.suboperators, continuation) ∷ []))
unfolding attach_continuation with_current
attached_lem older curr =
    ap
      (λ o. elim o [
        | none ↦ none
        | some c ↦ some (record {
          pipelines = set_back (split_off c) (older ++ curr ∷ []);
          continuations = (length c.suboperators, continuation) ∷ [];
        })
      ])
      (back_lem older curr)
    ∙ ap
        (λ ps. some (record {
          pipelines = ps;
          continuations = (length curr.suboperators, continuation) ∷ [];
        }))
        (set_back_lem older curr (split_off curr))

built_lem :
    (older : List Pipeline) (curr pipe : Pipeline) (idx : ℕ)
    → build_new_pipeline (dag_of older curr ((idx, pipe) ∷ []))
      ≡ some (
          dag_of
            (with_current (with_current older curr) (attach_all (drop idx curr.suboperators) pipe))
            new_pipeline
            [])
unfolding build_new_pipeline append_continuations with_current
built_lem older curr pipe idx =
    ap
      (Option.map
        (λ pipelines. record { pipelines = pipelines ++ new_pipeline ∷ []; continuations = [] }))
      (append_one older curr pipe idx [])

content_lem :
    (curr : Pipeline) (own later : List Subop)
    → (attach_all
        (drop (length curr.suboperators) (attach_all later (split_off curr)).suboperators)
        (attach_all own continuation)).suboperators
      ≡ own ++ later
unfolding new_pipeline
content_lem curr own later =
    let new = drop (length curr.suboperators) (attach_all later (split_off curr)).suboperators in
    let same : new ≡ later =
      ap (drop (length curr.suboperators)) (suboperators-attach_all later (split_off curr))
      ∙ drop-append curr.suboperators later in
    suboperators-attach_all new (attach_all own continuation)
    ∙ ap (λ xs. xs ++ new) (suboperators-attach_all own continuation)
    ∙ ap (λ xs. own ++ xs) same

-- `attachContinuation` on a DAG without another continuation, then suboperators `own` attached to
-- the continuation and `later` to the current pipeline, then `buildNewPipeline`: the new pipelines
-- behind the current one are the continuation, with its own suboperators and then exactly those that
-- the current pipeline got after the split, and an empty one; no continuation is left.
pub continuation_lem :
    (older : List Pipeline) (curr : Pipeline) (own later : List Subop)
    → (attach_continuation (dag_of older curr [])
        ≡ some (dag_of older (split_off curr) ((length curr.suboperators, continuation) ∷ [])))
      × (result : Pipeline) × (build_new_pipeline (
            dag_of older
              (attach_all later (split_off curr))
              ((length curr.suboperators, attach_all own continuation) ∷ []))
          ≡ some (
              dag_of
                (with_current (with_current older (attach_all later (split_off curr))) result)
                new_pipeline
                []))
      × (result.suboperators ≡ own ++ later)
continuation_lem older curr own later = (
  attached_lem older curr,
  _,
  built_lem older (attach_all later (split_off curr)) (attach_all own continuation)
      (length curr.suboperators),
  content_lem curr own later,
)

-- Two continuations of one pipeline: `buildNewPipeline` extends the second one by suboperators of
-- the first, which is the last pipeline by then, from an index that counts those of the pipeline
-- that both continue.
pub second_continuation :
    (older : List Pipeline) (curr p q : Pipeline) (i j : ℕ)
    → (p' : Pipeline) × (q' : Pipeline) × (build_new_pipeline
          (dag_of older curr ((i, p) ∷ (j, q) ∷ []))
        ≡ some
            (dag_of (with_current (with_current (with_current older curr) p') q') new_pipeline []))
      × (p'.suboperators ≡ p.suboperators ++ drop i curr.suboperators)
      × (q'.suboperators ≡ q.suboperators ++ drop j p'.suboperators)
unfolding build_new_pipeline with_current
second_continuation older curr p q i j =
    let p' = attach_all (drop i curr.suboperators) p in
    (
      p',
      attach_all (drop j p'.suboperators) q,
      ap
          (Option.map (λ pipelines. record {
            pipelines = pipelines ++ new_pipeline ∷ [];
            continuations = [];
          }))
          (append_one older curr p i ((j, q) ∷ [])
            ∙ append_one (with_current older curr) p' q j []),
      suboperators-attach_all (drop i curr.suboperators) p,
      suboperators-attach_all (drop j p'.suboperators) q,
    )
