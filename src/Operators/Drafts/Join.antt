-- ===== src/Operators/Drafts/Join.antt =====
-- algebra/Join.cpp: the suboperators of a join read what is provided in front.
use inkfuse.Base.{
  ℕ, ◌+◌, ◌≡◌, refl, sym, ap, subst, ◌∙◌, inl, inr, Bool, true, false, List, [], ◌∷◌, ◌++◌,
  if◌then◌else◌, Bool-cases,
}
use inkfuse.Algebra.Repipe.{occurs}
use inkfuse.Operators.Types.{num_bytes}
use inkfuse.Operators.Attach.{Draft, column_filter_scope}
use inkfuse.Operators.Closed.{
  Within, Within-refl, Within-append_left, Within-append_right, occurs-append_left,
  occurs-append_right,
}
use inkfuse.Operators.Attached.{drafts_ius, AreClosed, ends_in_sink}
use inkfuse.Operators.{
  Column, JoinType, JoinIus, pack, pack_pseudo, unpack, pseudos, build_drafts, probe_pack_drafts,
  is_left_semi, probe_drafts, match_drafts,
}
use inkfuse.Operators.Drafts.{
  AllRead-AreClosed, AreClosed-append, drafts_ius-append, occurs_last, pack-AllRead,
  pack_pseudo-AllRead, drafts_ius-pack_pseudo, unpack-AllRead, drafts_ius-unpack, ids, outs,
}

ends_in_sink-pack :
    (ptr offset : ℕ) (c : Column) (cs : List Column) (sink : Bool)
    → ends_in_sink sink (pack ptr offset (c ∷ cs)) ≡ true
unfolding pack
ends_in_sink-pack ptr offset c [] sink = refl
ends_in_sink-pack ptr offset c (d ∷ cs) sink =
    ends_in_sink-pack ptr (offset + num_bytes c.iu.type) d cs true

pub build_drafts-AreClosed :
    (ius : JoinIus) (c : Column) (cs : List Column) (p : List ℕ) (sink : Bool)
    → Within (ids (c ∷ cs)) p
    → AreClosed p (build_drafts ius (c ∷ cs))
      × (ends_in_sink sink (build_drafts ius (c ∷ cs)) ≡ true)
unfolding build_drafts
build_drafts-AreClosed ius c cs p sink w =
    let ptr = ius.lookup_left in
    (
      (
        w,
        AllRead-AreClosed (p ++ ptr ∷ []) (pack ptr 0 (c ∷ cs)) (
            pack-AllRead ptr 0 (c ∷ cs) (p ++ ptr ∷ [])
              (Within-append_left (ids (c ∷ cs)) p (ptr ∷ []) w) (occurs_last ptr p [])),
      ),
      ends_in_sink-pack ptr 0 c cs false,
    )

-- The columns that a join puts out.
abbrev pub join_outs : JoinType → List Column → List Column → List ℕ
join_outs type left right = if is_left_semi type then outs left else outs left ++ outs right

module _ (ius : JoinIus) (right : List Column) (p : List ℕ) where
  -- What is provided when the probe side is packed, and after the lookup.
  abbrev pub packed : List ℕ
  packed = p ++ ius.scratch_pad_right ∷ pseudos right

  abbrev pub probed : List ℕ
  probed = packed ++ ius.hash_right ∷ ius.lookup_right ∷ []

  pub probe_pack_drafts-AreClosed :
      Within (ids right) p
      → AreClosed p (probe_pack_drafts ius right)
        × (p ++ drafts_ius (probe_pack_drafts ius right) ≡ packed)
  unfolding probe_pack_drafts
  probe_pack_drafts-AreClosed w =
      let pad = ius.scratch_pad_right in
      (
        (
          tt,
          AllRead-AreClosed (p ++ pad ∷ []) (pack_pseudo pad 0 right) (
              pack_pseudo-AllRead pad 0 right (p ++ pad ∷ [])
                (Within-append_left (ids right) p (pad ∷ []) w) (occurs_last pad p [])),
        ),
        ap (λ v. p ++ pad ∷ v) (drafts_ius-pack_pseudo pad 0 right),
      )

  scratch_pad_packed : occurs ius.scratch_pad_right packed ≡ true
  scratch_pad_packed = occurs_last ius.scratch_pad_right p (pseudos right)

  pub probe_drafts-AreClosed :
      (type : JoinType)
      → AreClosed packed (probe_drafts type ius right)
        × (packed ++ drafts_ius (probe_drafts type ius right) ≡ probed)
  unfolding probe_drafts
  probe_drafts-AreClosed type =
      let pad = ius.scratch_pad_right in
      (
        (
          Within-append_right (pad ∷ pseudos right) p (pad ∷ pseudos right)
              (Within-refl (pad ∷ pseudos right)),
          (
            (
              occurs-append_left pad packed (ius.hash_right ∷ []) scratch_pad_packed,
              (occurs_last ius.hash_right packed [], tt),
            ),
            tt,
          ),
        ),
        refl,
      )

  lookup_probed : occurs ius.lookup_right probed ≡ true
  lookup_probed =
      occurs-append_right ius.lookup_right packed (ius.hash_right ∷ ius.lookup_right ∷ [])
        (occurs_last ius.lookup_right (ius.hash_right ∷ []) [])

  scratch_pad_probed : occurs ius.scratch_pad_right probed ≡ true
  scratch_pad_probed =
      occurs-append_left ius.scratch_pad_right packed (ius.hash_right ∷ ius.lookup_right ∷ [])
        scratch_pad_packed

  -- The two filters on the build side, and what is provided behind them.
  abbrev filtered : List ℕ
  filtered = (probed ++ ius.filter_pseudo_iu ∷ []) ++ ius.filtered_build ∷ []

  scope : Draft
  scope = record {
    ius = ius.filter_pseudo_iu ∷ [];
    source_ius = ius.lookup_right ∷ [];
    kind = column_filter_scope;
  }

  scope_reads :
      Within (ius.lookup_right ∷ []) probed
      × Within (ius.filter_pseudo_iu ∷ ius.lookup_right ∷ []) (probed ++ ius.filter_pseudo_iu ∷ [])
  scope_reads = (
    (lookup_probed, tt),
    (
      occurs_last ius.filter_pseudo_iu probed [],
      (occurs-append_left ius.lookup_right probed (ius.filter_pseudo_iu ∷ []) lookup_probed, tt),
    ),
  )

  probe_filter_reads : Within (ius.filter_pseudo_iu ∷ ius.scratch_pad_right ∷ []) filtered
  probe_filter_reads =
      let q = probed ++ ius.filter_pseudo_iu ∷ [] in
      let build = ius.filtered_build ∷ [] in
      (
        occurs-append_left ius.filter_pseudo_iu q build
            (occurs_last ius.filter_pseudo_iu probed []),
        (
          occurs-append_left ius.scratch_pad_right q build (
              occurs-append_left ius.scratch_pad_right probed (ius.filter_pseudo_iu ∷ [])
                scratch_pad_probed),
          tt,
        ),
      )

  pub match_drafts-AreClosed :
      (type : JoinType) (left : List Column)
      → AreClosed probed (match_drafts type ius left right)
        × Within
            (join_outs type left right)
            (probed ++ drafts_ius (match_drafts type ius left right))
  unfolding match_drafts
  match_drafts-AreClosed type left = elim (Bool-cases (is_left_semi type)) [
    | inl semi ↦
        let unpacks = unpack ius.filtered_build 0 left in
        let front = ius.filter_pseudo_iu ∷ ius.filtered_build ∷ [] in
        rw semi (
          (
            scope_reads.0,
            (
              scope_reads.1,
              AllRead-AreClosed filtered unpacks (
                  unpack-AllRead ius.filtered_build 0 left filtered
                    (occurs_last ius.filtered_build _ [])),
            ),
          ),
          subst (λ v. Within (outs left) (probed ++ (front ++ v)))
              (sym (drafts_ius-unpack ius.filtered_build 0 left)) (behind front (outs left)),
        )
    | inr both ↦
        let unpacks = unpack ius.filtered_build 0 left in
        let others = unpack ius.filtered_probe 0 right in
        let front = ius.filter_pseudo_iu ∷ ius.filtered_build ∷ ius.filtered_probe ∷ [] in
        let q = filtered ++ ius.filtered_probe ∷ [] in
        let r = q ++ drafts_ius unpacks in
        let build_here : occurs ius.filtered_build q ≡ true =
          occurs-append_left ius.filtered_build filtered (ius.filtered_probe ∷ [])
            (occurs_last ius.filtered_build _ []) in
        let probe_here : occurs ius.filtered_probe r ≡ true =
          occurs-append_left ius.filtered_probe q (drafts_ius unpacks)
            (occurs_last ius.filtered_probe filtered []) in
        rw both (
          (
            scope_reads.0,
            (
              scope_reads.1,
              (
                probe_filter_reads,
                AreClosed-append q unpacks others
                    (AllRead-AreClosed q unpacks
                      (unpack-AllRead ius.filtered_build 0 left q build_here))
                    (AllRead-AreClosed r others
                      (unpack-AllRead ius.filtered_probe 0 right r probe_here)),
              ),
            ),
          ),
          subst (λ v. Within (outs left ++ outs right) (probed ++ (front ++ v)))
              (sym (unpacked left)) (behind front (outs left ++ outs right)),
        )
  ]
    where
      behind : (front xs : List ℕ) → Within xs (probed ++ (front ++ xs))
      behind front xs =
          Within-append_right xs probed (front ++ xs)
            (Within-append_right xs front xs (Within-refl xs))

      unpacked :
          (left : List Column)
          → drafts_ius (unpack ius.filtered_build 0 left ++ unpack ius.filtered_probe 0 right)
            ≡ outs left ++ outs right
      unpacked left =
          drafts_ius-append (unpack ius.filtered_build 0 left) (unpack ius.filtered_probe 0 right)
          ∙ ap (λ v. v ++ drafts_ius (unpack ius.filtered_probe 0 right))
              (drafts_ius-unpack ius.filtered_build 0 left)
          ∙ ap (λ v. outs left ++ v) (drafts_ius-unpack ius.filtered_probe 0 right)
