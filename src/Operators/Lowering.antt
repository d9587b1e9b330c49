-- ===== src/Operators/Lowering.antt =====
-- algebra/: a query plan decays into pipelines that can be compiled and run.
pub mod Grouping
pub mod Joining
pub mod Query
use inkfuse.Base.{
  ℕ, ◌+◌, ◌≡◌, ◌≢◌, refl, sym, ap, subst, ◌∙◌, inl, inr, Bool, true, false, none, List, [], ◌∷◌,
  ◌++◌, map, if◌then◌else◌, arith, ◌==◌,
}
use mathlib.Core.List.{append-nil, append_assoc}
use Prim.Native.String.{String}
use inkfuse.Runtime.Run.{Run, ok, throws, ◌>>=◌}
use inkfuse.Algebra.Repipe.{occurs}
use inkfuse.Operators.Types.{Iu}
use inkfuse.Operators.Aggregates.{Description, Granule, Plan, plan, last_size}
use inkfuse.Operators.Aggregates.Ends.{ArePlanned, plan_ends}
use inkfuse.Operators.Attach.{Draft, Decay, attach_each, start_pipeline}
use inkfuse.Operators.Expressions.{Nodes, decay_roots}
use inkfuse.Operators.Expressions.Built.{root_ius}
use inkfuse.Operators.Expressions.Closed.{
  RootsAreWellBuilt, RootsAreWellBuilt-Within, decay_roots-IsUnderWay,
}
use inkfuse.Operators.Closed.{
  Within, Within-refl, Within-trans, Within-append_left, Within-append_right, Within-both,
  occurs-Within,
}
use inkfuse.Operators.Attached.{
  IsReady, IsUnderWay, IsUnderWay-IsReady, drafts_ius, AreClosed, ends_in_sink,
  attach_each-IsUnderWay, start_pipeline-IsUnderWay, close_guard-IsUnderWay,
  current_size-IsUnderWay,
}
use inkfuse.Operators.{
  Column, JoinType, inner, left_semi, left_outer, JoinIus, AggregationIus, RelAlgOp, table_scan,
  expression, filter, aggregation, join, print, RelAlgOps, nil, cons, scan_drafts, filter_drafts,
  size_of_columns, aggregate_drafts, reader_drafts, build_drafts, probe_side, print_drafts,
  checks_columns, decay, decay_all, attach_outer, probe_drafts, probe_pack_drafts, match_drafts,
  is_left_semi, pseudos,
}
use inkfuse.Operators.Accepted.{
  AllAccepted, AllFilterable, scan_drafts-AllAccepted, filter_drafts-AllAccepted,
  print_drafts-AllAccepted,
}
use inkfuse.Operators.Drafts.{
  ids, outs, iu_ids, scan_drafts-AreClosed, filter_drafts-AreClosed, print_drafts-AreClosed,
}
use inkfuse.Operators.Drafts.Aggregation.{
  aggregate_drafts-AreClosed, reader_drafts-AreClosed, granule_ius, result_ius,
}
use inkfuse.Operators.Drafts.Plans.{agg_ius, agg_outs, plan_ius}
use inkfuse.Operators.Drafts.Join.{
  build_drafts-AreClosed, packed, probed, join_outs, probe_pack_drafts-AreClosed,
  probe_drafts-AreClosed, match_drafts-AreClosed,
}

-- The IUs that the operators above may refer to.
unfoldable pub visible : RelAlgOp → List ℕ
visible (table_scan num_columns driver_iu cols) = driver_iu ∷ iu_ids cols
visible (expression out (cons child nil)) = visible child ++ root_ius out
visible (filter filter_iu pseudo_iu to_redefine (cons child nil)) =
    visible child ++ pseudo_iu ∷ outs to_redefine
visible (aggregation ius group_by aggregates children) =
    ius.ht_scan_result ∷ (outs group_by ++ agg_outs aggregates)
visible
      (join type is_pk ius keys_left payload_left keys_right payload_right
        (cons left (cons right nil))) =
    visible right ++ join_outs type (keys_left ++ payload_left) (keys_right ++ payload_right)
visible (print ius colnames (cons child nil)) = visible child
visible _ = []

-- The join types that do not continue the pipeline a second time.
abbrev pub IsNotOuter : JoinType → Type 0
IsNotOuter left_outer = ⊥
IsNotOuter _ = Unit

-- Every operator has as many children as it decays, refers only to IUs that are visible below it,
-- and passes the checks of its constructor. A relation that is scanned has a column, a column that
-- is filtered is no byte array, and an expression with a runtime parameter is no cast. Joins are
-- primary-key joins and no outer joins.
unfoldable pub IsWellScoped : RelAlgOp → Type 0
unfolding visible
IsWellScoped (table_scan num_columns driver_iu cols) = (num_columns == 0) ≡ false
IsWellScoped (expression out (cons child nil)) =
    IsWellScoped child × ((iu_at : ℕ → Iu) × RootsAreWellBuilt iu_at (visible child) out)
IsWellScoped (filter filter_iu pseudo_iu to_redefine (cons child nil)) =
    IsWellScoped child
    × (occurs filter_iu.id (visible child) ≡ true)
    × Within (ids to_redefine) (visible child)
    × AllFilterable to_redefine
IsWellScoped (aggregation ius group_by aggregates (cons child nil)) =
    IsWellScoped child
    × (aggregates ≢ [])
    × ArePlanned aggregates
    × Within (ids group_by) (visible child)
    × Within (agg_ius aggregates) (visible child)
IsWellScoped
      (join type is_pk ius keys_left payload_left keys_right payload_right
        (cons left (cons right nil))) =
    IsWellScoped left
    × IsWellScoped right
    × (is_pk ≡ true)
    × IsNotOuter type
    × (keys_left ++ payload_left ≢ [])
    × Within (ids (keys_left ++ payload_left)) (visible left)
    × Within (ids (keys_right ++ payload_right)) (visible right)
IsWellScoped (print ius colnames (cons child nil)) =
    IsWellScoped child × (checks_columns ius colnames ≡ true) × Within (iu_ids ius) (visible child)
IsWellScoped _ = ⊥

-- An operator decays: the current pipeline then provides what the operators above may refer to.
abbrev pub Decays : RelAlgOp → Decay → Type 0
Decays op s =
    (s' : Decay) × (provided : List ℕ) × (sink : Bool) × (decay op s ≡ ok s')
    × IsUnderWay s' provided sink
    × Within (visible op) provided

pub table_scan-Decays :
    (num_columns driver_iu : ℕ) (cols : List Iu) (s : Decay)
    → (num_columns == 0) ≡ false
    → IsReady s
    → Decays (table_scan num_columns driver_iu cols) s
unfolding decay visible
table_scan-Decays num_columns driver_iu cols s has_column ready =
    let (d, ds, e, source, i, c, p) = scan_drafts-AreClosed driver_iu cols in
    let (s', r, u) =
      start_pipeline-IsUnderWay d ds s ready source (subst (λ v. AreClosed v ds) (sym i) c)
        (subst AllAccepted e (scan_drafts-AllAccepted driver_iu cols)) in
    let all : driver_iu ∷ iu_ids cols ≡ d.ius ++ drafts_ius ds =
      ap (◌∷◌ driver_iu) (sym p) ∙ ap (λ v. v ++ drafts_ius ds) (sym i) in
    (
      s',
      _,
      _,
      rw has_column (ap (λ xs. start_pipeline s >>= attach_each xs) e ∙ r),
      u,
      subst (Within (driver_iu ∷ iu_ids cols)) all (Within-refl (driver_iu ∷ iu_ids cols)),
    )

pub expression-Decays :
    (out : Nodes) (child : RelAlgOp) (s : Decay) (iu_at : ℕ → Iu)
    → Decays child s
    → RootsAreWellBuilt iu_at (visible child) out
    → Decays (expression out (cons child nil)) s
unfolding decay visible
expression-Decays out child s iu_at (s', provided, sink, r, u, w) h =
    let (b, provided', sink', r', u', more, roots) =
      decay_roots-IsUnderWay iu_at out s' provided sink u
        (RootsAreWellBuilt-Within iu_at (visible child) provided out w h) in
    (
      b.decay,
      provided',
      sink',
      rw (r, r', ◌>>=◌) refl,
      u',
      Within-both (visible child) (root_ius out) provided'
          (Within-trans (visible child) provided provided' w more) roots,
    )

-- An operator that attaches suboperators behind those of its child.
pub attached-Decays :
    (ds : List Draft) (child : RelAlgOp) (s : Decay) (extra : List ℕ)
    → Decays child s
    → ((provided : List ℕ) → Within (visible child) provided → AreClosed provided ds)
    → AllAccepted ds
    → (drafts_ius ds ≡ extra)
    → (s' : Decay) × (provided : List ℕ) × (sink : Bool) × ((decay child s >>= attach_each ds)
        ≡ ok s')
      × IsUnderWay s' provided (ends_in_sink sink ds)
      × Within (visible child ++ extra) provided
attached-Decays ds child s extra (s', provided, sink, r, u, w) closed fine e =
    let (s'', r', u') = attach_each-IsUnderWay ds s' provided sink u (closed provided w) fine in
    (
      s'',
      provided ++ drafts_ius ds,
      sink,
      rw (r, ◌>>=◌) r',
      u',
      Within-both (visible child) extra (provided ++ drafts_ius ds)
          (Within-append_left (visible child) provided (drafts_ius ds) w)
          (Within-append_right extra provided (drafts_ius ds)
            (subst (λ v. Within extra v) (sym e) (Within-refl extra))),
    )

pub filter-Decays :
    (filter_iu : Iu) (pseudo_iu : ℕ) (cols : List Column) (child : RelAlgOp) (s : Decay)
    → Decays child s
    → occurs filter_iu.id (visible child) ≡ true
    → Within (ids cols) (visible child)
    → AllFilterable cols
    → Decays (filter filter_iu pseudo_iu cols (cons child nil)) s
unfolding decay visible
filter-Decays filter_iu pseudo_iu cols child s below h w fine =
    let ds = filter_drafts filter_iu pseudo_iu cols in
    let closed = λ (provided : List ℕ) (v : Within (visible child) provided).
      filter_drafts-AreClosed filter_iu pseudo_iu cols provided
        (occurs-Within filter_iu.id (visible child) provided v h)
        (Within-trans (ids cols) (visible child) provided w v) in
    let (_, provides) = filter_drafts-AreClosed filter_iu pseudo_iu cols (visible child) h w in
    let (s', provided, sink, r, u, v) =
      attached-Decays ds child s (pseudo_iu ∷ outs cols) below (λ provided v. (closed provided v).0)
        (filter_drafts-AllAccepted filter_iu pseudo_iu cols fine) provides in
    (s', provided, _, r, u, v)

pub decay_all_one :
    (child : RelAlgOp) (s s' : Decay) → decay child s ≡ ok s' → decay_all (cons child nil) s ≡ ok s'
unfolding decay
decay_all_one child s s' r = rw (r, ◌>>=◌) refl

-- A printed query ends in a sink.
pub print-Decays :
    (ius : List Iu) (colnames : List String) (child : RelAlgOp) (s : Decay)
    → Decays child s
    → checks_columns ius colnames ≡ true
    → Within (iu_ids ius) (visible child)
    → (s' : Decay) × (provided : List ℕ) × (decay (print ius colnames (cons child nil)) s ≡ ok s')
      × IsUnderWay s' provided true
      × Within (visible child) provided
unfolding decay checks_columns
print-Decays [] colnames child s below checks w = cc
print-Decays (iu ∷ ius) colnames child s (s₁, provided, sink, r, u, v) checks w =
    let ds = print_drafts (iu ∷ ius) in
    let (closed, ends) =
      print_drafts-AreClosed iu ius provided sink
        (Within-trans (iu_ids (iu ∷ ius)) (visible child) provided w v) in
    let (s₂, r₂, u₂) =
      attach_each-IsUnderWay ds s₁ provided sink u closed (print_drafts-AllAccepted (iu ∷ ius)) in
    (
      s₂,
      provided ++ drafts_ius ds,
      rw (checks, decay_all_one child s s₁ r, ◌>>=◌) r₂,
      subst (IsUnderWay s₂ (provided ++ drafts_ius ds)) ends u₂,
      Within-append_left (visible child) provided (drafts_ius ds) v,
    )
