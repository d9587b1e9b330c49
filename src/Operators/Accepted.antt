-- ===== src/Operators/Accepted.antt =====
-- algebra/: the constructors of the suboperators that relational operators decay into do not throw.
use inkfuse.Base.{
  ℕ, ◌+◌, ◌≡◌, refl, inl, inr, false, Option, none, some, List, [], ◌∷◌, ◌++◌, map, ◌==◌,
  Bool-cases,
}
use inkfuse.Operators.Types.{
  IrType, signed_int, unsigned_int, float, boolean, char, string, date, void, byte_array, pointer,
  num_bytes, Iu,
}
use inkfuse.Operators.Aggregates.{Granule, Plan, aggregators}
use inkfuse.Operators.Attach.{Code, cast, Draft, refuses, is_char_pointer, column_filter_logic}
use inkfuse.Operators.Expressions.{expression_draft}
use inkfuse.Operators.{
  Column, JoinType, JoinIus, AggregationIus, scan_drafts, filter_drafts, pack, pack_pseudo, unpack,
  size_of_columns, pack_key, key_lookup_draft, update_drafts, read_drafts, aggregate_drafts,
  reader_drafts, build_drafts, probe_pack_drafts, is_left_semi, probe_drafts, match_drafts,
  print_drafts,
}

abbrev pub AllAccepted : List Draft → Type 0
AllAccepted [] = Unit
AllAccepted (d ∷ ds) = (refuses d.kind ≡ false) × AllAccepted ds

AllAccepted-append : (ds es : List Draft) → AllAccepted ds → AllAccepted es → AllAccepted (ds ++ es)
AllAccepted-append [] es h k = k
AllAccepted-append (d ∷ ds) es (a, h) k = (a, AllAccepted-append ds es h k)

AllAccepted-map {ℓ} :
    {A : Type ℓ} (f : A → Draft) (xs : List A)
    → ((x : A) → refuses (f x).kind ≡ false)
    → AllAccepted (map f xs)
AllAccepted-map f [] h = tt
AllAccepted-map f (x ∷ xs) h = (h x, AllAccepted-map f xs h)

pub scan_drafts-AllAccepted : (driver : ℕ) (cols : List Iu) → AllAccepted (scan_drafts driver cols)
unfolding scan_drafts refuses
scan_drafts-AllAccepted driver cols = (refl, AllAccepted-map _ cols (λ col. refl))

-- A filter keeps the type of a column, which must not be a byte array: it would have to become a
-- pointer.
abbrev pub IsFilterable : IrType → Type 0
IsFilterable (byte_array size) = ⊥
IsFilterable _ = Unit

abbrev pub AllFilterable : List Column → Type 0
AllFilterable [] = Unit
AllFilterable (c ∷ cs) = IsFilterable c.iu.type × AllFilterable cs

filterable_lem : (t : IrType) → IsFilterable t → refuses (column_filter_logic t t) ≡ false
unfolding refuses
filterable_lem (byte_array size) h = absurd h
filterable_lem (signed_int size) h = refl
filterable_lem (unsigned_int size) h = refl
filterable_lem (float size) h = refl
filterable_lem boolean h = refl
filterable_lem char h = refl
filterable_lem string h = refl
filterable_lem date h = refl
filterable_lem void h = refl
filterable_lem (pointer t) h = refl

pub filter_drafts-AllAccepted :
    (filter_iu : Iu) (pseudo : ℕ) (cols : List Column)
    → AllFilterable cols
    → AllAccepted (filter_drafts filter_iu pseudo cols)
unfolding filter_drafts refuses
filter_drafts-AllAccepted filter_iu pseudo cols h = (refl, logics cols h)
  where
    logic : Column → Draft
    logic c = record {
      ius = c.out ∷ [];
      source_ius = pseudo ∷ c.iu.id ∷ [];
      kind = column_filter_logic c.iu.type c.iu.type;
    }

    logics : (cols : List Column) → AllFilterable cols → AllAccepted (map logic cols)
    logics [] h = tt
    logics (c ∷ cols) (a, h) = (filterable_lem c.iu.type a, logics cols h)

pack-AllAccepted : (ptr offset : ℕ) (cs : List Column) → AllAccepted (pack ptr offset cs)
unfolding pack refuses
pack-AllAccepted ptr offset [] = tt
pack-AllAccepted ptr offset (c ∷ cs) =
    (refl, pack-AllAccepted ptr (offset + num_bytes c.iu.type) cs)

pack_pseudo-AllAccepted :
    (ptr offset : ℕ) (cs : List Column) → AllAccepted (pack_pseudo ptr offset cs)
unfolding pack_pseudo refuses
pack_pseudo-AllAccepted ptr offset [] = tt
pack_pseudo-AllAccepted ptr offset (c ∷ cs) =
    (refl, pack_pseudo-AllAccepted ptr (offset + num_bytes c.iu.type) cs)

unpack-AllAccepted : (ptr offset : ℕ) (cs : List Column) → AllAccepted (unpack ptr offset cs)
unfolding unpack refuses
unpack-AllAccepted ptr offset [] = tt
unpack-AllAccepted ptr offset (c ∷ cs) =
    (refl, unpack-AllAccepted ptr (offset + num_bytes c.iu.type) cs)

pack_key-AllAccepted : (key : ℕ) (group_by : List Column) → AllAccepted (pack_key key group_by)
unfolding pack_key refuses
pack_key-AllAccepted key [] = (refl, pack_pseudo-AllAccepted key 0 [])
pack_key-AllAccepted key (c ∷ []) = tt
pack_key-AllAccepted key (c ∷ d ∷ cs) = (refl, pack_pseudo-AllAccepted key 0 (c ∷ d ∷ cs))

key_lookup_draft-AllAccepted :
    (ius : AggregationIus) (group_by : List Column) (gs : List Granule)
    → AllAccepted (key_lookup_draft ius group_by gs)
unfolding key_lookup_draft refuses
key_lookup_draft-AllAccepted ius group_by [] = elim (Bool-cases (size_of_columns group_by == 0)) [
  | inl empty ↦ rw empty tt
  | inr keyed ↦ rw keyed (refl, tt)
]
key_lookup_draft-AllAccepted ius group_by (g ∷ gs) =
    elim (Bool-cases (size_of_columns group_by == 0)) [
      | inl empty ↦ rw empty (refl, tt)
      | inr keyed ↦ rw keyed (refl, tt)
    ]

pub aggregate_drafts-AllAccepted :
    (ius : AggregationIus) (group_by : List Column) (p : Plan)
    → AllAccepted (aggregate_drafts ius group_by p)
unfolding aggregate_drafts update_drafts refuses
aggregate_drafts-AllAccepted ius group_by p =
    AllAccepted-append _ _ (pack_key-AllAccepted ius.packed_ht_key group_by) (
      AllAccepted-append _ _ (key_lookup_draft-AllAccepted ius group_by p.granules) (
        AllAccepted-map _ (aggregators p.granules (size_of_columns group_by + p.payload_offset))
          (λ entry. refl)))

pub reader_drafts-AllAccepted :
    (ius : AggregationIus) (group_by : List Column) (p : Plan)
    → AllAccepted (reader_drafts ius group_by p)
unfolding reader_drafts read_drafts refuses
reader_drafts-AllAccepted ius group_by p = (
  refl,
  AllAccepted-append _ _ (unpack-AllAccepted ius.ht_scan_result 0 group_by)
      (AllAccepted-map _ p.compute (λ c. refl)),
)

pub build_drafts-AllAccepted :
    (ius : JoinIus) (left : List Column) → AllAccepted (build_drafts ius left)
unfolding build_drafts refuses
build_drafts-AllAccepted ius left = (refl, pack-AllAccepted ius.lookup_left 0 left)

pub probe_pack_drafts-AllAccepted :
    (ius : JoinIus) (right : List Column) → AllAccepted (probe_pack_drafts ius right)
unfolding probe_pack_drafts refuses
probe_pack_drafts-AllAccepted ius right =
    (refl, pack_pseudo-AllAccepted ius.scratch_pad_right 0 right)

pub probe_drafts-AllAccepted :
    (type : JoinType) (ius : JoinIus) (right : List Column)
    → AllAccepted (probe_drafts type ius right)
unfolding probe_drafts refuses
probe_drafts-AllAccepted type ius right = (refl, (refl, tt))

-- The packed row of the probe side, a byte array, is filtered into pointers.
pub match_drafts-AllAccepted :
    (type : JoinType) (ius : JoinIus) (left right : List Column)
    → AllAccepted (match_drafts type ius left right)
unfolding match_drafts refuses is_char_pointer
match_drafts-AllAccepted type ius left right =
    let unpacks = unpack-AllAccepted ius.filtered_build 0 left in
    elim (Bool-cases (is_left_semi type)) [
      | inl semi ↦ rw semi (refl, (refl, unpacks))
      | inr both ↦ rw both (
        refl,
        (
          refl,
          (refl, AllAccepted-append _ _ unpacks (unpack-AllAccepted ius.filtered_probe 0 right)),
        ),
      )
    ]

pub print_drafts-AllAccepted : (ius : List Iu) → AllAccepted (print_drafts ius)
unfolding print_drafts refuses
print_drafts-AllAccepted ius = AllAccepted-map _ ius (λ iu. refl)

-- A node with a runtime parameter is no cast, as its constructor asserts.
abbrev pub IsNoRuntimeCast : Code → Option IrType → Type 0
IsNoRuntimeCast cast (some type) = ⊥
IsNoRuntimeCast _ _ = Unit

pub expression_draft-accepted :
    (code : Code) (out : Iu) (source_ius : List ℕ) (param : Option IrType)
    → IsNoRuntimeCast code param
    → refuses (expression_draft code out source_ius param).kind ≡ false
unfolding expression_draft refuses
expression_draft-accepted code out source_ius none h = refl
expression_draft-accepted cast out source_ius (some type) h = absurd h
expression_draft-accepted _ out source_ius (some type) h = refl
