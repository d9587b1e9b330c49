-- ===== src/Operators/Lowering/Joining.antt =====
-- algebra/Join.cpp: a join decays into closed pipelines.
use inkfuse.Base.{ℕ, ◌≡◌, refl, ap, subst, ◌∙◌, Bool, true, List, [], ◌∷◌, ◌++◌}
use inkfuse.Runtime.Run.{ok, ◌>>=◌}
use inkfuse.Operators.Attach.{Decay, attach_each}
use inkfuse.Operators.Closed.{Within, Within-refl, Within-trans, Within-append_left, Within-both}
use inkfuse.Operators.Attached.{
  IsReady, IsUnderWay, IsUnderWay-IsReady, drafts_ius, ends_in_sink, attach_each-IsUnderWay,
  close_guard-IsUnderWay, current_size-IsUnderWay,
}
use inkfuse.Operators.{
  Column, JoinType, inner, left_semi, left_outer, JoinIus, RelAlgOp, join, nil, cons, build_drafts,
  probe_side, decay, attach_outer, probe_drafts, probe_pack_drafts, match_drafts, pseudos,
}
use inkfuse.Operators.Accepted.{
  build_drafts-AllAccepted, probe_pack_drafts-AllAccepted, probe_drafts-AllAccepted,
  match_drafts-AllAccepted,
}
use inkfuse.Operators.Drafts.{ids}
use inkfuse.Operators.Drafts.Join.{
  build_drafts-AreClosed, packed, probed, join_outs, probe_pack_drafts-AreClosed,
  probe_drafts-AreClosed, match_drafts-AreClosed,
}
use inkfuse.Operators.Lowering.{visible, IsNotOuter, Decays}

probe_side-IsUnderWay :
    (type : JoinType) (ius : JoinIus) (left right : List Column) (s : Decay) (provided : List ℕ)
    (sink : Bool)
    → IsNotOuter type
    → IsUnderWay s provided sink
    → Within (ids right) provided
    → (s' : Decay) × (provided' : List ℕ) × (sink' : Bool) × (probe_side type ius left right s
        ≡ ok s')
      × IsUnderWay s' provided' sink'
      × Within provided provided'
      × Within (join_outs type left right) provided'
unfolding probe_side
probe_side-IsUnderWay type ius left right s provided sink not_outer u w =
    let (c₁, p₁) = probe_pack_drafts-AreClosed ius right provided w in
    let (s₁, r₁, u₁) =
      attach_each-IsUnderWay (probe_pack_drafts ius right) s provided sink u c₁
        (probe_pack_drafts-AllAccepted ius right) in
    let sink₁ = ends_in_sink sink (probe_pack_drafts ius right) in
    let v₁ = subst (λ v. IsUnderWay s₁ v sink₁) p₁ u₁ in
    let (n, size) = current_size-IsUnderWay s₁ (packed ius right provided) sink₁ v₁ in
    let (c₂, p₂) = probe_drafts-AreClosed ius right provided type in
    let (s₂, r₂, u₂) =
      attach_each-IsUnderWay (probe_drafts type ius right) s₁ (packed ius right provided) sink₁ v₁
        c₂ (probe_drafts-AllAccepted type ius right) in
    let sink₂ = ends_in_sink sink₁ (probe_drafts type ius right) in
    let v₂ = subst (λ v. IsUnderWay s₂ v sink₂) p₂ u₂ in
    let (s₃, r₃, v₃) = close_guard-IsUnderWay n s₂ (probed ius right provided) sink₂ v₂ in
    let (c₄, w₄) = match_drafts-AreClosed ius right provided type left in
    let (s₄, r₄, v₄) =
      attach_each-IsUnderWay (match_drafts type ius left right) s₃ (probed ius right provided) sink₂
        v₃ c₄ (match_drafts-AllAccepted type ius left right) in
    let matched = drafts_ius (match_drafts type ius left right) in
    let in_packed =
      Within-append_left provided provided (ius.scratch_pad_right ∷ pseudos right)
        (Within-refl provided) in
    let in_probed =
      Within-append_left provided (packed ius right provided)
        (ius.hash_right ∷ ius.lookup_right ∷ []) in_packed in
    (
      s₄,
      probed ius right provided ++ matched,
      _,
      rw (r₁, size, r₂, r₃, not_split type not_outer s₃, ◌>>=◌) r₄,
      v₄,
      Within-append_left provided (probed ius right provided) matched in_probed,
      w₄,
    )
  where
    not_split : (type : JoinType) → IsNotOuter type → (s : Decay) → attach_outer type ius s ≡ ok s
    not_split inner h s = refl
    not_split left_semi h s = refl
    not_split left_outer h s = absurd h

pub join-Decays :
    (type : JoinType) (ius : JoinIus)
    (keys_left payload_left keys_right payload_right : List Column) (left right : RelAlgOp)
    (c : Column) (cs : List Column) (s : Decay)
    → IsNotOuter type
    → keys_left ++ payload_left ≡ c ∷ cs
    → Decays left s
    → ((s' : Decay) → IsReady s' → Decays right s')
    → Within (ids (keys_left ++ payload_left)) (visible left)
    → Within (ids (keys_right ++ payload_right)) (visible right)
    → Decays
        (join type true ius keys_left payload_left keys_right payload_right
          (cons left (cons right nil)))
        s
unfolding decay visible
join-Decays type ius keys_left payload_left keys_right payload_right left right c cs s not_outer e
      (s₁, provided, sink, r, u, w) probe build_ius probe_ius =
    let full_left = keys_left ++ payload_left in
    let full_right = keys_right ++ payload_right in
    let rows : Within (ids (c ∷ cs)) provided =
      subst (λ xs. Within (ids xs) provided) e
        (Within-trans (ids full_left) (visible left) provided build_ius w) in
    let (closed, ends) = build_drafts-AreClosed ius c cs provided sink rows in
    let (s₂, r₂, u₂) =
      attach_each-IsUnderWay (build_drafts ius (c ∷ cs)) s₁ provided sink u closed
        (build_drafts-AllAccepted ius (c ∷ cs)) in
    let ready =
      IsUnderWay-IsReady
        (subst (IsUnderWay s₂ (provided ++ drafts_ius (build_drafts ius (c ∷ cs)))) ends u₂) in
    let r₂' : attach_each (build_drafts ius full_left) s₁ ≡ ok s₂ =
      ap (λ xs. attach_each (build_drafts ius xs) s₁) e ∙ r₂ in
    let (s₃, provided₃, sink₃, r₃, u₃, w₃) = probe s₂ ready in
    let (s₄, provided₄, sink₄, r₄, u₄, more, results) =
      probe_side-IsUnderWay type ius full_left full_right s₃ provided₃ sink₃ not_outer u₃
        (Within-trans (ids full_right) (visible right) provided₃ probe_ius w₃) in
    (
      s₄,
      provided₄,
      sink₄,
      rw (r, r₂', r₃, ◌>>=◌) r₄,
      u₄,
      Within-both (visible right) (join_outs type full_left full_right) provided₄
          (Within-trans (visible right) provided₃ provided₄ w₃ more) results,
    )
