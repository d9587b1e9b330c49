-- ===== src/Codegen.antt =====
-- algebra/CompilationContext.cpp: the order in which the code of a pipeline's suboperators is
-- generated.
--
-- The calls between the context and the suboperators (`open`, `requestIU`, `notifyIUsReady`,
-- `consume`, `close`, `notifyOpClosed`) nest; here the calls that are still to be made are a list of
-- tasks, and the body of a call stands in front of what follows it. Of the generated code the list
-- of the suboperators is kept, the last first. The keys of the context's maps are suboperators,
-- given by id. Declarations of IUs are left out.
pub mod Steps
pub mod Orderly
pub mod Progress
pub mod Requests
pub mod Own
pub mod Coded
pub mod Opening
pub mod Serving
pub mod Tops
pub mod Closing
pub mod Compile
use inkfuse.Base.{
  ℕ, zero, suc, ◌+◌, ◌-◌, ◌%◌, ◌^◌, Bool, true, false, not, ◌&&◌, Option, none, some, List, [], ◌∷◌,
  ◌++◌, map, ◌==◌, if◌then◌else◌, length, update, take,
}
use inkfuse.Runtime.Run.{Run, ok, throws, diverges, ◌>>=◌}
use inkfuse.Algebra.{Subop, Pipeline, get_producers}
use inkfuse.Algebra.Repipe.{occurs}

-- How a suboperator overrides `open`, `consume` and `consumeAllChildren`. Sources generate their code
-- in `open`; `by_consume` are those that do so in `consume`; a filter scope has the filters that
-- depend on it, each with the IU that it filters.
pub data Overrides : Type 0 where
  source by_children by_consume : Overrides
  filter_scope : List (ℕ × ℕ) → Overrides
  filter_logic : Overrides

-- `subop` and `overrides` are what a pointer to a suboperator leads to; `only_vectorized` tells
-- whether no code is generated for it in the mode of this context.
pub record Context : Type 0 where
  pub pipeline : Pipeline
  pub subop : ℕ → Subop
  pub overrides : ℕ → Overrides
  pub only_vectorized : ℕ → Bool

pub record State : Type 0 where
  pub upstream_requests : ℕ → ℕ
  pub serviced_requests : ℕ → ℕ
  pub requests : ℕ → Option (ℕ × ℕ)
  pub computed : ℕ → Bool
  pub code : List ℕ
  pub closed : List ℕ

-- `service` is the part of `notifyIUsReady` behind `consume`, and `release` is one round of the loop of
-- `notifyOpClosed`.
pub data Task : Type 0 where
  open_ notify close release : ℕ → Task
  request consume : ℕ → ℕ → Task
  service : ℕ → Task

-- the sinks that `compile` collects, in its order
unfoldable pub select : (ℕ → Bool) → List Subop → List ℕ
select test [] = []
select test (s ∷ ss) = if test s.id then s.id ∷ select test ss else select test ss

module _ (c : Context) where
  unfoldable pub is_sink : ℕ → Bool
  is_sink i = length (c.subop i).ius == 0

  unfoldable pub num_source_ius : ℕ → ℕ
  num_source_ius i = length (c.subop i).source_ius

  -- the search of `requestIU`
  unfoldable pub find_provider : ℕ → List ℕ → Option ℕ
  unfolding occurs
  find_provider iu [] = none
  find_provider iu (q ∷ qs) = if occurs iu (c.subop q).ius then some q else find_provider iu qs

  unfoldable pub provider : ℕ → ℕ → Option ℕ
  unfolding find_provider get_producers
  provider op iu = find_provider iu (get_producers c.pipeline op)

  -- what `open` requests for the filters that depend on a scope, and for the suboperator itself
  unfoldable pub requested_for_filters : ℕ → List (ℕ × ℕ)
  requested_for_filters i = elim (c.overrides i) [
    | filter_scope dependencies ↦ dependencies
    | _ ↦ []
  ]

  -- A scope must have filters.
  unfoldable pub lacks_filters : ℕ → Bool
  lacks_filters i = elim (c.overrides i) [ filter_scope [] ↦ true | _ ↦ false ]

  unfoldable pub requested : ℕ → List ℕ
  requested i = elim (c.overrides i) [
    | source ↦ []
    | filter_logic ↦ take 1 (c.subop i).source_ius
    | _ ↦ (c.subop i).source_ius
  ]

  unfoldable pub generates_in_open : ℕ → Bool
  generates_in_open i = elim (c.overrides i) [ source ↦ true | _ ↦ false ]

  unfoldable pub generates_in_consume : ℕ → Bool
  generates_in_consume i = elim (c.overrides i) [ by_consume ↦ true | _ ↦ false ]

  -- a suboperator that is no sink and has no consumers in the pipeline
  unfoldable pub producing_no_request : ℕ → Bool
  unfolding is_sink
  producing_no_request i = not (is_sink i) && length (c.pipeline.outgoing_edges i) == 0

  -- the call of `notifyIUsReady` behind generated code
  unfoldable pub ready : ℕ → List Task
  unfolding is_sink
  ready i = if is_sink i then [] else notify i ∷ []

  unfoldable pub generate : ℕ → State → List Task × State
  unfolding ready
  generate i s = (ready i, record s { code = i ∷ s.code })

  unfoldable pub open_requests : ℕ → List Task
  unfolding requested_for_filters requested
  open_requests i =
      map (λ d. request d.0 d.1) (requested_for_filters i) ++ map (request i) (requested i)

  unfoldable pub step : Task → State → Run (List Task × State)
  unfolding generate lacks_filters open_requests provider num_source_ius generates_in_open
      generates_in_consume producing_no_request get_producers
  step (open_ i) s =
      if lacks_filters i
      then throws
      else if generates_in_open i
      then ok (generate i s)
      else ok (open_requests i, s)
  step (request op iu) s = elim (provider op iu) [
    | none ↦ throws
    | some q ↦ ok (
      (if s.computed q then notify q else open_ q) ∷ [],
      record s {
        upstream_requests = update s.upstream_requests q (s.upstream_requests q + 1);
        requests = update s.requests q (some (op, iu));
      },
    )
  ]
  step (notify op) s =
      let computed : State = record s { computed = update s.computed op true } in
      if producing_no_request op then ok ([], computed) else elim (s.requests op) [
        | none ↦ throws
        | some (requestor, iu) ↦ ok (
          consume requestor iu ∷ service requestor ∷ [],
          record computed { requests = update s.requests op none },
        )
      ]
  step (consume op iu) s = if generates_in_consume op then ok (generate op s) else ok ([], s)
  step (service op) s =
      let n = s.serviced_requests op + 1 in
      let serviced : State = record s { serviced_requests = update s.serviced_requests op n } in
      if n == num_source_ius op
      then if c.only_vectorized op
        then ok (notify op ∷ [], serviced)
        else if generates_in_consume op
        then ok ([], serviced)
        else ok (generate op serviced)
      else ok ([], serviced)
  step (close op) s =
      ok (map release (get_producers c.pipeline op), record s { closed = op ∷ s.closed })
  step (release op) s =
      let n = (s.upstream_requests op + 2 ^ 64 - 1) % 2 ^ 64 in
      let released : State = record s { upstream_requests = update s.upstream_requests op n } in
      ok (if n == 0 then close op ∷ [] else [], released)

  -- Calls are made until none is left.
  unfoldable pub run : ℕ → List Task → State → Run State
  unfolding step
  run zero tasks s = diverges
  run (suc fuel) [] s = ok s
  run (suc fuel) (t ∷ tasks) s = step t s >>= λ r. run fuel (r.0 ++ tasks) r.1

  unfoldable pub sinks : List ℕ
  unfolding select producing_no_request is_sink
  sinks =
      select producing_no_request c.pipeline.suboperators ++ select is_sink c.pipeline.suboperators

  unfoldable pub compile : ℕ → Run State
  unfolding run sinks
  compile fuel = run fuel (map open_ sinks ++ map close sinks) (record {
    upstream_requests = λ _. 0;
    serviced_requests = λ _. 0;
    requests = λ _. none;
    computed = λ _. false;
    code = [];
    closed = [];
  })
