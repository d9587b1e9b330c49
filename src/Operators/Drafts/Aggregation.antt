-- ===== src/Operators/Drafts/Aggregation.antt =====
-- algebra/Aggregation.cpp: the suboperators of an aggregation read what is provided in front.
use inkfuse.Base.{
  ℕ, ◌+◌, ◌≡◌, refl, sym, ap, subst, ◌∙◌, inl, inr, Bool, true, List, [], ◌∷◌, ◌++◌, map, ◌==◌,
  Bool-cases,
}
use inkfuse.Algebra.Repipe.{occurs}
use inkfuse.Operators.Aggregates.{Granule, size_of, PlannedAggCompute, Plan, aggregators}
use inkfuse.Operators.Attach.{Draft}
use inkfuse.Operators.Closed.{
  Within, Within-refl, Within-append_left, Within-append_right, occurs-append_left,
}
use inkfuse.Operators.Attached.{drafts_ius, AreClosed, ends_in_sink}
use inkfuse.Operators.{
  Column, AggregationIus, unpack, size_of_columns, pseudos, pack_pseudo, pack_key, key_ius,
  key_lookup_draft, update_drafts, read_drafts, aggregate_drafts, reader_drafts,
}
use inkfuse.Operators.Drafts.{
  AllRead, AllRead-AreClosed, AreClosed-append, drafts_ius-append, ends_in_sink-append, occurs_head,
  occurs_last, pack_pseudo-AllRead, drafts_ius-pack_pseudo, unpack-AllRead, drafts_ius-unpack, ids,
  outs,
}

-- The key is packed, and what the lookup depends on is then provided.
pack_key-AreClosed :
    (key : ℕ) (group_by : List Column) (p : List ℕ)
    → Within (ids group_by) p
    → AreClosed p (pack_key key group_by)
      × Within (key_ius key group_by) (p ++ drafts_ius (pack_key key group_by))
unfolding pack_key key_ius
pack_key-AreClosed key [] p w = ((tt, tt), (occurs_last key p [], tt))
pack_key-AreClosed key (c ∷ []) p (here, w) = (tt, (occurs-append_left c.iu.id p [] here, tt))
pack_key-AreClosed key (c ∷ d ∷ cs) p w =
    let group_by = c ∷ d ∷ cs in
    let packed = drafts_ius-pack_pseudo key 0 group_by in
    (
      (
        tt,
        AllRead-AreClosed (p ++ key ∷ []) (pack_pseudo key 0 group_by) (
            pack_pseudo-AllRead key 0 group_by (p ++ key ∷ [])
              (Within-append_left (ids group_by) p (key ∷ []) w) (occurs_last key p [])),
      ),
      subst (λ v. Within (key ∷ pseudos group_by) (p ++ key ∷ v)) (sym packed)
          (Within-append_right (key ∷ pseudos group_by) p (key ∷ pseudos group_by)
            (Within-refl (key ∷ pseudos group_by))),
    )

key_lookup_draft-AreClosed :
    (ius : AggregationIus) (group_by : List Column) (g : Granule) (gs : List Granule) (p : List ℕ)
    → Within (key_ius ius.packed_ht_key group_by) p
    → occurs g.iu.id p ≡ true
    → AreClosed p (key_lookup_draft ius group_by (g ∷ gs))
      × (drafts_ius (key_lookup_draft ius group_by (g ∷ gs)) ≡ ius.agg_pointer_result ∷ [])
unfolding key_lookup_draft
key_lookup_draft-AreClosed ius group_by g gs p w h =
    elim (Bool-cases (size_of_columns group_by == 0)) [
      | inl empty ↦ rw empty (((h, tt), tt), refl)
      | inr keyed ↦ rw keyed ((w, tt), refl)
    ]

abbrev pub granule_ius : List Granule → List ℕ
granule_ius = map λ g. g.iu.id

update_drafts-AllRead :
    (ptr start : ℕ) (gs : List Granule) (p : List ℕ)
    → occurs ptr p ≡ true
    → Within (granule_ius gs) p
    → AllRead p (update_drafts ptr (aggregators gs start))
unfolding update_drafts aggregators
update_drafts-AllRead ptr start [] p h w = tt
update_drafts-AllRead ptr start (g ∷ gs) p h (here, w) =
    ((h, (here, tt)), update_drafts-AllRead ptr (start + size_of g) gs p h w)

drafts_ius-update_drafts :
    (ptr : ℕ) (entries : List (Granule × ℕ)) → drafts_ius (update_drafts ptr entries) ≡ []
unfolding update_drafts
drafts_ius-update_drafts ptr [] = refl
drafts_ius-update_drafts ptr (e ∷ entries) = drafts_ius-update_drafts ptr entries

ends_in_sink-update_drafts :
    (ptr start : ℕ) (g : Granule) (gs : List Granule) (sink : Bool)
    → ends_in_sink sink (update_drafts ptr (aggregators (g ∷ gs) start)) ≡ true
unfolding update_drafts aggregators
ends_in_sink-update_drafts ptr start g [] sink = refl
ends_in_sink-update_drafts ptr start g (h ∷ gs) sink =
    ends_in_sink-update_drafts ptr (start + size_of g) h gs true

pub aggregate_drafts-AreClosed :
    (ius : AggregationIus) (group_by : List Column) (g : Granule) (gs : List Granule) (plan : Plan)
    (p : List ℕ) (sink : Bool)
    → plan.granules ≡ g ∷ gs
    → Within (ids group_by) p
    → Within (granule_ius (g ∷ gs)) p
    → AreClosed p (aggregate_drafts ius group_by plan)
      × (ends_in_sink sink (aggregate_drafts ius group_by plan) ≡ true)
unfolding aggregate_drafts
aggregate_drafts-AreClosed ius group_by g gs plan p sink e w v =
    let key = ius.packed_ht_key in
    let ptr = ius.agg_pointer_result in
    let start = size_of_columns group_by + plan.payload_offset in
    let packs = pack_key key group_by in
    let q = p ++ drafts_ius packs in
    let (packed, ready) = pack_key-AreClosed key group_by p w in
    let v' = Within-append_left (granule_ius (g ∷ gs)) p (drafts_ius packs) v in
    let (found, points) = key_lookup_draft-AreClosed ius group_by g gs q ready v'.0 in
    let lookup_ = key_lookup_draft ius group_by (g ∷ gs) in
    let updates = update_drafts ptr (aggregators (g ∷ gs) start) in
    let updated = AllRead-AreClosed (q ++ ptr ∷ []) updates (
      update_drafts-AllRead ptr start (g ∷ gs) (q ++ ptr ∷ []) (occurs_last ptr q [])
        (Within-append_left (granule_ius (g ∷ gs)) q (ptr ∷ []) v')) in
    rw e (
      AreClosed-append p packs (lookup_ ++ updates) packed (
          AreClosed-append q lookup_ updates found
            (subst (λ x. AreClosed (q ++ x) updates) (sym points) updated)),
      ends_in_sink-append packs (lookup_ ++ updates) sink
          ∙ ends_in_sink-append lookup_ updates (ends_in_sink sink packs)
          ∙ ends_in_sink-update_drafts ptr start g gs
              (ends_in_sink (ends_in_sink sink packs) lookup_),
    )

abbrev pub result_ius : List PlannedAggCompute → List ℕ
result_ius = map λ c. c.out.id

read_drafts-AllRead :
    (ptr key_size : ℕ) (cs : List PlannedAggCompute) (p : List ℕ)
    → occurs ptr p ≡ true
    → AllRead p (read_drafts ptr key_size cs)
unfolding read_drafts
read_drafts-AllRead ptr key_size [] p h = tt
read_drafts-AllRead ptr key_size (c ∷ cs) p h = ((h, tt), read_drafts-AllRead ptr key_size cs p h)

drafts_ius-read_drafts :
    (ptr key_size : ℕ) (cs : List PlannedAggCompute)
    → drafts_ius (read_drafts ptr key_size cs) ≡ result_ius cs
unfolding read_drafts
drafts_ius-read_drafts ptr key_size [] = refl
drafts_ius-read_drafts ptr key_size (c ∷ cs) =
    ap (◌∷◌ c.out.id) (drafts_ius-read_drafts ptr key_size cs)

pub reader_drafts-AreClosed :
    (ius : AggregationIus) (group_by : List Column) (plan : Plan)
    → (d : Draft) × (ds : List Draft) × (reader_drafts ius group_by plan ≡ d ∷ ds)
      × (d.source_ius ≡ [])
      × (d.ius ≡ ius.ht_scan_result ∷ [])
      × AreClosed (ius.ht_scan_result ∷ []) ds
      × (drafts_ius ds ≡ outs group_by ++ result_ius plan.compute)
unfolding reader_drafts
reader_drafts-AreClosed ius group_by plan =
    let ptr = ius.ht_scan_result in
    let unpacks = unpack ptr 0 group_by in
    let reads = read_drafts ptr (size_of_columns group_by) plan.compute in
    (
      _,
      unpacks ++ reads,
      refl,
      refl,
      refl,
      AreClosed-append (ptr ∷ []) unpacks reads
          (AllRead-AreClosed (ptr ∷ []) unpacks
            (unpack-AllRead ptr 0 group_by (ptr ∷ []) (occurs_head ptr [])))
          (AllRead-AreClosed (ptr ∷ drafts_ius unpacks) reads (
            read_drafts-AllRead ptr _ plan.compute (ptr ∷ drafts_ius unpacks)
              (occurs_head ptr (drafts_ius unpacks)))),
      drafts_ius-append unpacks reads
          ∙ ap (λ v. v ++ drafts_ius reads) (drafts_ius-unpack ptr 0 group_by)
          ∙ ap (λ v. outs group_by ++ v) (drafts_ius-read_drafts ptr _ plan.compute),
    )
