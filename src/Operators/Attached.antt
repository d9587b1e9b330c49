-- ===== src/Operators/Attached.antt =====
-- algebra/Pipeline.cpp: what the attaching of suboperators does to the current pipeline.
use inkfuse.Base.{
  ℕ, ◌+◌, ◌≡◌, refl, sym, ap, subst, ◌∙◌, Bool, true, false, some, List, [], ◌∷◌, ◌++◌, length,
}
use mathlib.Core.List.{append-nil, append_assoc}
use inkfuse.Runtime.Run.{ok, ◌>>=◌}
use inkfuse.Algebra.{
  Subop, Pipeline, new_pipeline, attach_suboperator, attach_all, back, set_back,
  append_continuations, build_new_pipeline, end_scope,
}
use inkfuse.Algebra.Continuations.{suboperators-attach_all, back_lem, set_back_lem}
use inkfuse.Operators.Attach.{
  Draft, build, refuses, Decay, attach, attach_each, start_pipeline, current_size, close_guard,
}
use inkfuse.Operators.Accepted.{AllAccepted}
use inkfuse.Operators.Closed.{
  Within, IsClosed, IsClosed-append, ius_of, ius_of-append, is_empty, starts_with_source,
  starts_with_source-append, ends_with_sink, ends_with_sink-append, end_scope-keeps,
  set_rof_strategy-IsClosed, ius_of-set_rof_strategy, starts_with_source-set_rof_strategy,
  ends_with_sink-set_rof_strategy,
}

-- A pipeline that can be compiled and run: closed, from a source to a sink.
pub record IsComplete (p : Pipeline) : Type 0 where
  pub closed : IsClosed [] p.suboperators
  pub starts : starts_with_source p.suboperators ≡ true
  pub ends : ends_with_sink p.suboperators ≡ true

abbrev pub AllComplete : List Pipeline → Type 0
AllComplete [] = Unit
AllComplete (p ∷ ps) = IsComplete p × AllComplete ps

AllComplete-append :
    (ps : List Pipeline) (p : Pipeline) → AllComplete ps → IsComplete p → AllComplete (ps ++ p ∷ [])
AllComplete-append [] p all c = (c, tt)
AllComplete-append (q ∷ ps) p (h, all) c = (h, AllComplete-append ps p all c)

-- All pipelines are complete, and none waits to be continued.
pub record IsReady (s : Decay) : Type 0 where
  pub complete : AllComplete s.dag.pipelines
  pub no_continuations : s.dag.continuations ≡ []

-- The current pipeline is under way: it is closed, starts with a source, provides `visible`, and
-- `sink` tells whether its last suboperator is a sink. Those before it are complete.
pub record IsUnderWay (s : Decay) (visible : List ℕ) (sink : Bool) : Type 0 where
  pub older : List Pipeline
  pub curr : Pipeline
  pub pipelines : s.dag.pipelines ≡ older ++ curr ∷ []
  pub no_continuations : s.dag.continuations ≡ []
  pub complete : AllComplete older
  pub closed : IsClosed [] curr.suboperators
  pub starts : starts_with_source curr.suboperators ≡ true
  pub provides : ius_of curr.suboperators ≡ visible
  pub ends : ends_with_sink curr.suboperators ≡ sink

pub IsUnderWay-IsReady : {s : Decay} {visible : List ℕ} → IsUnderWay s visible true → IsReady s
IsUnderWay-IsReady u = record {
  complete = subst AllComplete (sym u.pipelines) (
      AllComplete-append u.older u.curr u.complete
        (record { closed = u.closed; starts = u.starts; ends = u.ends }));
  no_continuations = u.no_continuations;
}

-- The suboperators of drafts, those that drafts provide, and what they may read.
abbrev pub drafts_ius : List Draft → List ℕ
drafts_ius [] = []
drafts_ius (d ∷ ds) = d.ius ++ drafts_ius ds

abbrev pub AreClosed : List ℕ → List Draft → Type 0
AreClosed provided [] = Unit
AreClosed provided (d ∷ ds) = Within d.source_ius provided × AreClosed (provided ++ d.ius) ds

-- Whether the last of the drafts makes a sink, after a last suboperator that does or does not.
abbrev pub ends_in_sink : Bool → List Draft → Bool
ends_in_sink sink [] = sink
ends_in_sink sink (d ∷ ds) = ends_in_sink (is_empty d.ius) ds

suboperators-attach :
    (s : Subop) (p : Pipeline) → (attach_suboperator s p).suboperators ≡ p.suboperators ++ s ∷ []
unfolding attach_all
suboperators-attach s p = suboperators-attach_all (s ∷ []) p

-- One suboperator more in the current pipeline.
attach_raw :
    (d : Draft) (s : Decay) (older : List Pipeline) (curr : Pipeline)
    → s.dag.pipelines ≡ older ++ curr ∷ []
    → refuses d.kind ≡ false
    → (s' : Decay) × (attach d s ≡ ok s')
      × (s'.dag.pipelines ≡ older ++ attach_suboperator (build s.next d) curr ∷ [])
      × (s'.dag.continuations ≡ s.dag.continuations)
unfolding attach
attach_raw d s older curr e fine =
    let b : back s.dag.pipelines ≡ some curr = ap back e ∙ back_lem older curr in
    let attached : Decay = record {
      dag = record s.dag {
        pipelines = set_back (attach_suboperator (build s.next d) curr) s.dag.pipelines;
      };
      next = s.next + 1;
      kinds = s.kinds ++ (s.next, d.kind) ∷ [];
    } in
    (
      attached,
      rw (fine, b, ◌>>=◌) refl,
      ap (set_back (attach_suboperator (build s.next d) curr)) e
          ∙ set_back_lem older curr (attach_suboperator (build s.next d) curr),
      refl,
    )

pub attach-IsUnderWay :
    (d : Draft) (s : Decay) (visible : List ℕ) (sink : Bool)
    → IsUnderWay s visible sink
    → Within d.source_ius visible
    → refuses d.kind ≡ false
    → (s' : Decay) × (attach d s ≡ ok s') × IsUnderWay s' (visible ++ d.ius) (is_empty d.ius)
unfolding build
attach-IsUnderWay d s visible sink u w fine =
    let (s', r, p, c) = attach_raw d s u.older u.curr u.pipelines fine in
    let subop = build s.next d in
    let e = suboperators-attach subop u.curr in
    (
      s',
      r,
      record {
        older = u.older;
        curr = attach_suboperator subop u.curr;
        pipelines = p;
        no_continuations = c ∙ u.no_continuations;
        complete = u.complete;
        closed = subst (IsClosed []) (sym e) (
            IsClosed-append [] u.curr.suboperators (subop ∷ []) u.closed
              (subst (Within d.source_ius) (sym u.provides) w, tt));
        starts =
            ap starts_with_source e
            ∙ starts_with_source-append u.curr.suboperators (subop ∷ []) u.starts;
        provides =
            ap ius_of e
            ∙ ius_of-append u.curr.suboperators (subop ∷ [])
            ∙ ap (λ v. v ++ (d.ius ++ [])) u.provides
            ∙ ap (λ v. visible ++ v) (append-nil d.ius);
        ends = ap ends_with_sink e ∙ ends_with_sink-append u.curr.suboperators subop;
      },
    )

pub attach_each-IsUnderWay :
    (ds : List Draft) (s : Decay) (visible : List ℕ) (sink : Bool)
    → IsUnderWay s visible sink
    → AreClosed visible ds
    → AllAccepted ds
    → (s' : Decay) × (attach_each ds s ≡ ok s')
      × IsUnderWay s' (visible ++ drafts_ius ds) (ends_in_sink sink ds)
unfolding attach_each
attach_each-IsUnderWay [] s visible sink u c a =
    (s, refl, subst (λ v. IsUnderWay s v sink) (sym (append-nil visible)) u)
attach_each-IsUnderWay (d ∷ ds) s visible sink u (w, c) (fine, a) =
    let (s', r, u') = attach-IsUnderWay d s visible sink u w fine in
    let (s'', r', u'') = attach_each-IsUnderWay ds s' (visible ++ d.ius) (is_empty d.ius) u' c a in
    (
      s'',
      rw (r, ◌>>=◌) r',
      subst (λ v. IsUnderWay s'' v (ends_in_sink (is_empty d.ius) ds))
          (append_assoc visible d.ius (drafts_ius ds)) u'',
    )

-- A new pipeline behind complete ones, from its source on.
pub start_pipeline-IsUnderWay :
    (d : Draft) (ds : List Draft) (s : Decay)
    → IsReady s
    → d.source_ius ≡ []
    → AreClosed d.ius ds
    → AllAccepted (d ∷ ds)
    → (s' : Decay) × ((start_pipeline s >>= attach_each (d ∷ ds)) ≡ ok s')
      × IsUnderWay s' (d.ius ++ drafts_ius ds) (ends_in_sink (is_empty d.ius) ds)
unfolding start_pipeline build_new_pipeline attach_each build new_pipeline starts_with_source
    ends_with_sink
start_pipeline-IsUnderWay d ds s ready none_ c (fine, a) =
    let new : append_continuations s.dag.pipelines s.dag.continuations ≡ some s.dag.pipelines =
      ap (append_continuations s.dag.pipelines) ready.no_continuations ∙ nothing s.dag.pipelines in
    let started : Decay = record s {
      dag = record { pipelines = s.dag.pipelines ++ new_pipeline ∷ []; continuations = [] };
    } in
    let (s', r, p, c') = attach_raw d started s.dag.pipelines new_pipeline refl fine in
    let subop = build s.next d in
    let e : (attach_suboperator subop new_pipeline).suboperators ≡ subop ∷ [] = first subop in
    let u : IsUnderWay s' d.ius (is_empty d.ius) = record {
      older = s.dag.pipelines;
      curr = attach_suboperator subop new_pipeline;
      pipelines = p;
      no_continuations = c';
      complete = ready.complete;
      closed = subst (IsClosed []) (sym e) (subst (λ v. Within v []) (sym none_) tt, tt);
      starts = ap starts_with_source e ∙ ap is_empty none_;
      provides = ap ius_of e ∙ append-nil d.ius;
      ends = ap ends_with_sink e;
    } in
    let (s'', r', u') = attach_each-IsUnderWay ds s' d.ius (is_empty d.ius) u c a in
    (s'', rw (new, r, ◌>>=◌) r', u')
  where
    nothing : (ps : List Pipeline) → append_continuations ps [] ≡ some ps
    nothing ps = refl

    first : (subop : Subop) → (attach_suboperator subop new_pipeline).suboperators ≡ subop ∷ []
    first subop = suboperators-attach subop new_pipeline

-- The end of the scope of relaxed operator fusion.
pub close_guard-IsUnderWay :
    (size_at_start : ℕ) (s : Decay) (visible : List ℕ) (sink : Bool)
    → IsUnderWay s visible sink
    → (s' : Decay) × (close_guard size_at_start s ≡ ok s') × IsUnderWay s' visible sink
unfolding close_guard
close_guard-IsUnderWay size_at_start s visible sink u =
    let b : back s.dag.pipelines ≡ some u.curr = ap back u.pipelines ∙ back_lem u.older u.curr in
    let marked = end_scope size_at_start u.curr.suboperators in
    let curr : Pipeline = record u.curr { suboperators = marked } in
    let closed : Decay = record s {
      dag = record s.dag { pipelines = set_back curr s.dag.pipelines };
    } in
    (
      closed,
      rw (b, ◌>>=◌) refl,
      record {
        older = u.older;
        curr = curr;
        pipelines = ap (set_back curr) u.pipelines ∙ set_back_lem u.older u.curr curr;
        no_continuations = u.no_continuations;
        complete = u.complete;
        closed =
            end_scope-keeps (IsClosed []) (λ r i ss. set_rof_strategy-IsClosed r i [] ss)
              size_at_start u.curr.suboperators u.closed;
        starts =
            end_scope-keeps (λ ss. starts_with_source ss ≡ true)
              (λ r i ss h. starts_with_source-set_rof_strategy r i ss ∙ h) size_at_start
              u.curr.suboperators u.starts;
        provides =
            end_scope-keeps (λ ss. ius_of ss ≡ visible)
              (λ r i ss h. ius_of-set_rof_strategy r i ss ∙ h) size_at_start u.curr.suboperators
              u.provides;
        ends =
            end_scope-keeps (λ ss. ends_with_sink ss ≡ sink)
              (λ r i ss h. ends_with_sink-set_rof_strategy r i ss ∙ h) size_at_start
              u.curr.suboperators u.ends;
      },
    )

pub current_size-IsUnderWay :
    (s : Decay) (visible : List ℕ) (sink : Bool)
    → IsUnderWay s visible sink
    → (n : ℕ) × (current_size s ≡ ok n)
unfolding current_size
current_size-IsUnderWay s visible sink u =
    let b : back s.dag.pipelines ≡ some u.curr = ap back u.pipelines ∙ back_lem u.older u.curr in
    (length u.curr.suboperators, rw (b, ◌>>=◌) refl)
