-- ===== src/Operators/Drafts.antt =====
-- algebra/: the suboperators of each relational operator read what is provided in front of them.
pub mod Aggregation
pub mod Join
pub mod Plans
use inkfuse.Base.{
  ℕ, zero, suc, ◌+◌, ◌≡◌, refl, sym, ap, subst, ◌∙◌, inl, inr, Bool, true, false, List, [], ◌∷◌,
  ◌++◌, map, length, arith, ◌==◌, eq→==, if◌then◌else◌, Bool-cases,
}
use mathlib.Core.List.{append-nil, append_assoc}
use inkfuse.Algebra.Repipe.{occurs}
use inkfuse.Operators.Types.{IrType, num_bytes, Iu}
use inkfuse.Operators.Aggregates.{Granule, PlannedAggCompute, Plan, aggregators}
use inkfuse.Operators.Attach.{
  Draft, tscan_iu_provider, column_filter_logic, fuse_chunk_sink, aggregator, agg_reader,
}
use inkfuse.Operators.Closed.{
  Within, Within-refl, Within-trans, Within-append_left, Within-append_right, Within-both,
  occurs-Within, occurs-append_left, occurs-append_right, is_empty,
}
use inkfuse.Operators.Attached.{drafts_ius, AreClosed, ends_in_sink}
use inkfuse.Operators.{
  Column, JoinType, inner, left_semi, left_outer, JoinIus, AggregationIus, scan_drafts,
  filter_drafts, pack, pack_pseudo, unpack, size_of_columns, pseudos, pack_key, key_ius,
  key_lookup_draft, update_drafts, read_drafts, aggregate_drafts, reader_drafts, build_drafts,
  probe_pack_drafts, is_left_semi, probe_drafts, match_drafts, print_drafts,
}

-- Each draft reads what is provided from the start.
abbrev pub AllRead : List ℕ → List Draft → Type 0
AllRead provided [] = Unit
AllRead provided (d ∷ ds) = Within d.source_ius provided × AllRead provided ds

abbrev pub ids : List Column → List ℕ
ids = map λ c. c.iu.id

pub AllRead-Within : (p q : List ℕ) (ds : List Draft) → Within p q → AllRead p ds → AllRead q ds
AllRead-Within p q [] w r = tt
AllRead-Within p q (d ∷ ds) w (h, r) =
    (Within-trans d.source_ius p q h w, AllRead-Within p q ds w r)

pub AllRead-AreClosed : (p : List ℕ) (ds : List Draft) → AllRead p ds → AreClosed p ds
AllRead-AreClosed p [] r = tt
AllRead-AreClosed p (d ∷ ds) (h, r) = (
  h,
  AllRead-AreClosed (p ++ d.ius) ds
      (AllRead-Within p (p ++ d.ius) ds (Within-append_left p p d.ius (Within-refl p)) r),
)

pub AreClosed-append :
    (p : List ℕ) (ds es : List Draft)
    → AreClosed p ds
    → AreClosed (p ++ drafts_ius ds) es
    → AreClosed p (ds ++ es)
AreClosed-append p [] es c e = subst (λ q. AreClosed q es) (append-nil p) e
AreClosed-append p (d ∷ ds) es (h, c) e = (
  h,
  AreClosed-append (p ++ d.ius) ds es c
      (subst (λ q. AreClosed q es) (sym (append_assoc p d.ius (drafts_ius ds))) e),
)

pub drafts_ius-append :
    (ds es : List Draft) → drafts_ius (ds ++ es) ≡ drafts_ius ds ++ drafts_ius es
drafts_ius-append [] es = refl
drafts_ius-append (d ∷ ds) es =
    ap (λ v. d.ius ++ v) (drafts_ius-append ds es)
    ∙ sym (append_assoc d.ius (drafts_ius ds) (drafts_ius es))

pub occurs_head : (x : ℕ) (xs : List ℕ) → occurs x (x ∷ xs) ≡ true
unfolding occurs
occurs_head x xs = ground (arith, eq→== x x refl)

-- The IUs of columns and of what they are packed into.
pub pack-AllRead :
    (ptr offset : ℕ) (cs : List Column) (p : List ℕ)
    → Within (ids cs) p
    → occurs ptr p ≡ true
    → AllRead p (pack ptr offset cs)
unfolding pack
pack-AllRead ptr offset [] p w h = tt
pack-AllRead ptr offset (c ∷ cs) p (here, w) h =
    ((here, (h, tt)), pack-AllRead ptr (offset + num_bytes c.iu.type) cs p w h)

pub pack_pseudo-AllRead :
    (ptr offset : ℕ) (cs : List Column) (p : List ℕ)
    → Within (ids cs) p
    → occurs ptr p ≡ true
    → AllRead p (pack_pseudo ptr offset cs)
unfolding pack_pseudo
pack_pseudo-AllRead ptr offset [] p w h = tt
pack_pseudo-AllRead ptr offset (c ∷ cs) p (here, w) h =
    ((here, (h, tt)), pack_pseudo-AllRead ptr (offset + num_bytes c.iu.type) cs p w h)

pub drafts_ius-pack_pseudo :
    (ptr offset : ℕ) (cs : List Column) → drafts_ius (pack_pseudo ptr offset cs) ≡ pseudos cs
unfolding pack_pseudo
drafts_ius-pack_pseudo ptr offset [] = refl
drafts_ius-pack_pseudo ptr offset (c ∷ cs) =
    ap (◌∷◌ c.pseudo) (drafts_ius-pack_pseudo ptr (offset + num_bytes c.iu.type) cs)

pub unpack-AllRead :
    (ptr offset : ℕ) (cs : List Column) (p : List ℕ)
    → occurs ptr p ≡ true
    → AllRead p (unpack ptr offset cs)
unfolding unpack
unpack-AllRead ptr offset [] p h = tt
unpack-AllRead ptr offset (c ∷ cs) p h =
    ((h, tt), unpack-AllRead ptr (offset + num_bytes c.iu.type) cs p h)

abbrev pub outs : List Column → List ℕ
outs = map λ c. c.out

pub drafts_ius-unpack :
    (ptr offset : ℕ) (cs : List Column) → drafts_ius (unpack ptr offset cs) ≡ outs cs
unfolding unpack
drafts_ius-unpack ptr offset [] = refl
drafts_ius-unpack ptr offset (c ∷ cs) =
    ap (◌∷◌ c.out) (drafts_ius-unpack ptr (offset + num_bytes c.iu.type) cs)

abbrev pub iu_ids : List Iu → List ℕ
iu_ids = map λ iu. iu.id

pub scan_drafts-AreClosed :
    (driver : ℕ) (cols : List Iu)
    → (d : Draft) × (ds : List Draft) × (scan_drafts driver cols ≡ d ∷ ds)
      × (d.source_ius ≡ [])
      × (d.ius ≡ driver ∷ [])
      × AreClosed (driver ∷ []) ds
      × (drafts_ius ds ≡ iu_ids cols)
unfolding scan_drafts
scan_drafts-AreClosed driver cols =
    (_, _, refl, refl, refl, AllRead-AreClosed (driver ∷ []) _ (reads cols), provides cols)
  where
    provider : Iu → Draft
    provider col = record { ius = col.id ∷ []; source_ius = driver ∷ []; kind = tscan_iu_provider }

    reads : (cols : List Iu) → AllRead (driver ∷ []) (map provider cols)
    reads [] = tt
    reads (col ∷ cols) = ((occurs_head driver [], tt), reads cols)

    provides : (cols : List Iu) → drafts_ius (map provider cols) ≡ iu_ids cols
    provides [] = refl
    provides (col ∷ cols) = ap (◌∷◌ col.id) (provides cols)

pub occurs_last : (x : ℕ) (xs ys : List ℕ) → occurs x (xs ++ x ∷ ys) ≡ true
occurs_last x xs ys = occurs-append_right x xs (x ∷ ys) (occurs_head x ys)

pub filter_drafts-AreClosed :
    (filter_iu : Iu) (pseudo : ℕ) (cols : List Column) (p : List ℕ)
    → occurs filter_iu.id p ≡ true
    → Within (ids cols) p
    → AreClosed p (filter_drafts filter_iu pseudo cols)
      × (drafts_ius (filter_drafts filter_iu pseudo cols) ≡ pseudo ∷ outs cols)
unfolding filter_drafts
filter_drafts-AreClosed filter_iu pseudo cols p h w = (
  ((h, tt), AllRead-AreClosed (p ++ pseudo ∷ []) _ (reads cols w)),
  ap (◌∷◌ pseudo) (provides cols),
)
  where
    logic : Column → Draft
    logic c = record {
      ius = c.out ∷ [];
      source_ius = pseudo ∷ c.iu.id ∷ [];
      kind = column_filter_logic c.iu.type c.iu.type;
    }

    reads : (cols : List Column) → Within (ids cols) p → AllRead (p ++ pseudo ∷ []) (map logic cols)
    reads [] w = tt
    reads (c ∷ cols) (here, w) = (
      (occurs_last pseudo p [], (occurs-append_left c.iu.id p (pseudo ∷ []) here, tt)),
      reads cols w,
    )

    provides : (cols : List Column) → drafts_ius (map logic cols) ≡ outs cols
    provides [] = refl
    provides (c ∷ cols) = ap (◌∷◌ c.out) (provides cols)

pub ends_in_sink-append :
    (ds es : List Draft) (sink : Bool)
    → ends_in_sink sink (ds ++ es) ≡ ends_in_sink (ends_in_sink sink ds) es
ends_in_sink-append [] es sink = refl
ends_in_sink-append (d ∷ ds) es sink = ends_in_sink-append ds es (is_empty d.ius)

pub print_drafts-AreClosed :
    (iu : Iu) (ius : List Iu) (p : List ℕ) (sink : Bool)
    → Within (iu_ids (iu ∷ ius)) p
    → AreClosed p (print_drafts (iu ∷ ius)) × (ends_in_sink sink (print_drafts (iu ∷ ius)) ≡ true)
unfolding print_drafts
print_drafts-AreClosed iu ius p sink w =
    (AllRead-AreClosed p (map sink_draft (iu ∷ ius)) (reads (iu ∷ ius) w), sinks ius)
  where
    sink_draft : Iu → Draft
    sink_draft iu = record { ius = []; source_ius = iu.id ∷ []; kind = fuse_chunk_sink }

    reads : (ius : List Iu) → Within (iu_ids ius) p → AllRead p (map sink_draft ius)
    reads [] w = tt
    reads (iu ∷ ius) (here, w) = ((here, tt), reads ius w)

    sinks : (ius : List Iu) → ends_in_sink true (map sink_draft ius) ≡ true
    sinks [] = refl
    sinks (iu ∷ ius) = sinks ius
