-- ===== src/Operators/Lowering/Grouping.antt =====
-- algebra/Aggregation.cpp: an aggregation decays into closed pipelines.
use inkfuse.Base.{ℕ, ◌≡◌, ◌≢◌, refl, sym, ap, subst, ◌∙◌, List, [], ◌∷◌, ◌++◌}
use inkfuse.Runtime.Run.{ok, ◌>>=◌}
use inkfuse.Operators.Aggregates.{Description, Granule, last_size}
use inkfuse.Operators.Aggregates.Ends.{ArePlanned, plan_ends}
use inkfuse.Operators.Attach.{Decay, attach_each, start_pipeline}
use inkfuse.Operators.Closed.{Within, Within-refl, Within-trans}
use inkfuse.Operators.Attached.{
  IsUnderWay, IsUnderWay-IsReady, drafts_ius, AreClosed, attach_each-IsUnderWay,
  start_pipeline-IsUnderWay,
}
use inkfuse.Operators.{
  Column, AggregationIus, RelAlgOp, aggregation, nil, cons, size_of_columns, aggregate_drafts,
  decay,
}
use inkfuse.Operators.Accepted.{
  AllAccepted, aggregate_drafts-AllAccepted, reader_drafts-AllAccepted,
}
use inkfuse.Operators.Drafts.{ids, outs}
use inkfuse.Operators.Drafts.Aggregation.{
  aggregate_drafts-AreClosed, reader_drafts-AreClosed, granule_ius,
}
use inkfuse.Operators.Drafts.Plans.{agg_ius, agg_outs, plan_ius}
use inkfuse.Operators.Lowering.{visible, Decays, decay_all_one}

nothing_last : (step : ℕ) → last_size [] ≢ ok step
unfolding last_size
nothing_last step e = cc

pub aggregation-Decays :
    (ius : AggregationIus) (group_by : List Column) (d : Description) (ds : List Description)
    (child : RelAlgOp) (s : Decay)
    → Decays child s
    → ArePlanned (d ∷ ds)
    → Within (ids group_by) (visible child)
    → Within (agg_ius (d ∷ ds)) (visible child)
    → Decays (aggregation ius group_by (d ∷ ds) (cons child nil)) s
unfolding decay visible
aggregation-Decays ius group_by d ds child s (s₁, provided, sink, r, u, w) planned keys aggs =
    let key_size = size_of_columns group_by in
    let (p, step, _, planned_, l, _, _, _) = plan_ends key_size d ds planned in
    let (g, gs, e) = one_granule p.granules step l in
    let (granules, results) =
      plan_ius key_size (d ∷ ds) p provided planned_
        (Within-trans (agg_ius (d ∷ ds)) (visible child) provided aggs w) in
    let (closed, ends) =
      aggregate_drafts-AreClosed ius group_by g gs p provided sink e
        (Within-trans (ids group_by) (visible child) provided keys w)
        (subst (λ x. Within (granule_ius x) provided) e granules) in
    let (s₂, r₂, u₂) =
      attach_each-IsUnderWay (aggregate_drafts ius group_by p) s₁ provided sink u closed
        (aggregate_drafts-AllAccepted ius group_by p) in
    let ready =
      IsUnderWay-IsReady (
        subst (IsUnderWay s₂ (provided ++ drafts_ius (aggregate_drafts ius group_by p))) ends u₂) in
    let (a, as_, e', source, i, c, provides) = reader_drafts-AreClosed ius group_by p in
    let (s₃, r₃, u₃) =
      start_pipeline-IsUnderWay a as_ s₂ ready source (subst (λ v. AreClosed v as_) (sym i) c)
        (subst AllAccepted e' (reader_drafts-AllAccepted ius group_by p)) in
    let readers = ap (λ xs. start_pipeline s₂ >>= attach_each xs) e' ∙ r₃ in
    let all : ius.ht_scan_result ∷ (outs group_by ++ agg_outs (d ∷ ds)) ≡ a.ius ++ drafts_ius as_ =
      ap (λ v. ius.ht_scan_result ∷ (outs group_by ++ v)) (sym results)
      ∙ ap (◌∷◌ ius.ht_scan_result) (sym provides)
      ∙ ap (λ v. v ++ drafts_ius as_) (sym i) in
    (
      s₃,
      _,
      _,
      rw (planned_, decay_all_one child s s₁ r, r₂, ◌>>=◌) readers,
      u₃,
      subst (Within (ius.ht_scan_result ∷ (outs group_by ++ agg_outs (d ∷ ds)))) all
          (Within-refl (ius.ht_scan_result ∷ (outs group_by ++ agg_outs (d ∷ ds)))),
    )
  where
    one_granule :
        (gs : List Granule) (step : ℕ)
        → last_size gs ≡ ok step
        → (g : Granule) × (hs : List Granule) × (gs ≡ g ∷ hs)
    one_granule [] step l = absurd (nothing_last step l)
    one_granule (g ∷ gs) step l = (g, gs, refl)
