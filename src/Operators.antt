-- ===== src/Operators.antt =====
-- algebra/RelAlgOp.h and its operators: TableScan, ExpressionOp, Filter, Aggregation, Join and Print,
-- and how they decay into suboperators.
--
-- IUs that an operator makes for itself are given by their ids; those that it makes for a column
-- stand with the column. Of the relation that is scanned the number of columns is kept. The state and the tasks that it attaches to the DAG for the runtime are
-- left out.
pub mod Types
pub mod Aggregates
pub mod Attach
pub mod Expressions
pub mod Closed
pub mod Accepted
pub mod Attached
pub mod Drafts
pub mod Lowering
use Prim.Native.String.{String}
use inkfuse.Base.{
  ℕ, ◌+◌, ◌*◌, ◌%◌, ◌^◌, Bool, true, false, not, ◌&&◌, none, List, [], ◌∷◌, ◌++◌, map, length, ◌==◌,
  if◌then◌else◌,
}
use inkfuse.Runtime.Run.{Run, ok, throws, ◌>>=◌}
use inkfuse.Operators.Types.{IrType, string, char, byte_array, pointer, num_bytes, Iu}
use inkfuse.Operators.Aggregates.{
  Description, AggState, Granule, aggregators, PlannedAggCompute, Plan, plan,
}
use inkfuse.Operators.Attach.{
  Kind, tscan_driver, tscan_iu_provider, column_filter_scope, column_filter_logic, scratch_pad,
  key_packer, key_unpacker, materialize_tuple, ht_no_key_lookup, ht_hash_and_prefetch,
  fuse_chunk_sink, ht_lookup_or_insert, hash_table_source, ht_lookup_with_hash, outer_join_source,
  aggregator, agg_reader, Draft, Decay, attach, attach_each, start_pipeline, attach_to_continuation,
  current_size, close_guard,
}
use inkfuse.Operators.Expressions.{Nodes, decay_roots}

-- A column that is packed into a row: its IU, the pseudo IU of the packer where there is one, and
-- the IU for the column when it is unpacked.
pub record Column : Type 0 where
  pub iu : Iu
  pub pseudo : ℕ
  pub out : ℕ

pub data JoinType : Type 0 where
  inner left_semi left_outer : JoinType

pub record JoinIus : Type 0 where
  pub scratch_pad_right : ℕ
  pub hash_right : ℕ
  pub lookup_left : ℕ
  pub lookup_right : ℕ
  pub filter_pseudo_iu : ℕ
  pub filtered_build : ℕ
  pub filtered_probe : ℕ

pub record AggregationIus : Type 0 where
  pub packed_ht_key : ℕ
  pub agg_pointer_result : ℕ
  pub ht_scan_result : ℕ

mutual
  pub data RelAlgOp : Type 0 where
    table_scan : ℕ → ℕ → List Iu → RelAlgOp
    expression : Nodes → RelAlgOps → RelAlgOp
    filter : Iu → ℕ → List Column → RelAlgOps → RelAlgOp
    aggregation : AggregationIus → List Column → List Description → RelAlgOps → RelAlgOp
    join :
        JoinType
        → Bool
        → JoinIus
        → List Column
        → List Column
        → List Column
        → List Column
        → RelAlgOps
        → RelAlgOp
    print : List Iu → List String → RelAlgOps → RelAlgOp

  pub data RelAlgOps : Type 0 where
    nil : RelAlgOps
    cons : RelAlgOp → RelAlgOps → RelAlgOps

-- `TableScan::decay`, behind `rel.getColumn(0)`
unfoldable pub scan_drafts : ℕ → List Iu → List Draft
scan_drafts driver_iu cols =
    record { ius = driver_iu ∷ []; source_ius = []; kind = tscan_driver }
    ∷ map
        (λ col. record { ius = col.id ∷ []; source_ius = driver_iu ∷ []; kind = tscan_iu_provider })
        cols

-- `Filter::decay`; the IU that a column becomes has the type of the column
unfoldable pub filter_drafts : Iu → ℕ → List Column → List Draft
filter_drafts filter_iu pseudo_iu to_redefine =
    record { ius = pseudo_iu ∷ []; source_ius = filter_iu.id ∷ []; kind = column_filter_scope }
    ∷ map
        (λ c. record {
          ius = c.out ∷ [];
          source_ius = pseudo_iu ∷ c.iu.id ∷ [];
          kind = column_filter_logic c.iu.type c.iu.type;
        })
        to_redefine

-- `IR::UI<2>::build`
abbrev pub ui2 : ℕ → ℕ
ui2 n = n % 2 ^ 16

-- the loops that pack columns into the row behind `ptr`, without and with pseudo IUs
unfoldable pub pack : ℕ → ℕ → List Column → List Draft
unfolding num_bytes
pack ptr offset [] = []
pack ptr offset (c ∷ cs) =
    record { ius = []; source_ius = c.iu.id ∷ ptr ∷ []; kind = key_packer (ui2 offset) }
    ∷ pack ptr (offset + num_bytes c.iu.type) cs

unfoldable pub pack_pseudo : ℕ → ℕ → List Column → List Draft
unfolding num_bytes
pack_pseudo ptr offset [] = []
pack_pseudo ptr offset (c ∷ cs) =
    record { ius = c.pseudo ∷ []; source_ius = c.iu.id ∷ ptr ∷ []; kind = key_packer (ui2 offset) }
    ∷ pack_pseudo ptr (offset + num_bytes c.iu.type) cs

-- the loops that unpack columns from the row behind `ptr`
unfoldable pub unpack : ℕ → ℕ → List Column → List Draft
unfolding num_bytes
unpack ptr offset [] = []
unpack ptr offset (c ∷ cs) =
    record { ius = c.out ∷ []; source_ius = ptr ∷ []; kind = key_unpacker (ui2 offset) }
    ∷ unpack ptr (offset + num_bytes c.iu.type) cs

unfoldable pub size_of_columns : List Column → ℕ
unfolding num_bytes
size_of_columns [] = 0
size_of_columns (c ∷ cs) = num_bytes c.iu.type + size_of_columns cs

unfoldable pub requires_complex_ht : List Column → Bool
requires_complex_ht (c ∷ []) = elim c.iu.type [ string ↦ true | _ ↦ false ]
requires_complex_ht _ = false

abbrev pub pseudos : List Column → List ℕ
pseudos = map λ c. c.pseudo

-- step 1 of `Aggregation::decay`
unfoldable pub pack_key : ℕ → List Column → List Draft
unfolding pack_pseudo
pack_key packed_ht_key (c ∷ []) = []
pack_key packed_ht_key group_by =
    record { ius = packed_ht_key ∷ []; source_ius = []; kind = scratch_pad }
    ∷ pack_pseudo packed_ht_key 0 group_by

-- the packed key and the pseudo IUs on which the lookup depends
unfoldable pub key_ius : ℕ → List Column → List ℕ
key_ius packed_ht_key (c ∷ []) = c.iu.id ∷ []
key_ius packed_ht_key group_by = packed_ht_key ∷ pseudos group_by

-- step 2: the lookup; without a key it depends on the IU of the first granule
unfoldable pub key_lookup_draft : AggregationIus → List Column → List Granule → List Draft
unfolding key_ius requires_complex_ht size_of_columns
key_lookup_draft ius group_by granules =
    if size_of_columns group_by == 0
    then elim granules [
      | [] ↦ []
      | g ∷ gs ↦
          record {
            ius = ius.agg_pointer_result ∷ [];
            source_ius = g.iu.id ∷ [];
            kind = ht_no_key_lookup;
          }
          ∷ []
    ]
    else record {
      ius = ius.agg_pointer_result ∷ [];
      source_ius = key_ius ius.packed_ht_key group_by;
      kind = ht_lookup_or_insert (requires_complex_ht group_by);
    }
      ∷ []

-- step 3: the aggregators
unfoldable pub update_drafts : ℕ → List (Granule × ℕ) → List Draft
update_drafts agg_pointer_result = map λ entry. record {
  ius = [];
  source_ius = agg_pointer_result ∷ (entry.0).iu.id ∷ [];
  kind = aggregator (entry.0).state (ui2 entry.1);
}

-- step 4: the readers on a new pipeline
unfoldable pub read_drafts : ℕ → ℕ → List PlannedAggCompute → List Draft
read_drafts ht_scan_result key_size = map λ c. record {
  ius = c.out.id ∷ [];
  source_ius = ht_scan_result ∷ [];
  kind = agg_reader c.compute (map (λ o. ui2 (key_size + o)) c.granule_offsets);
}

unfoldable pub aggregate_drafts : AggregationIus → List Column → Plan → List Draft
unfolding pack_key key_lookup_draft update_drafts size_of_columns aggregators
aggregate_drafts ius group_by p =
    pack_key ius.packed_ht_key group_by
    ++ (key_lookup_draft ius group_by p.granules
        ++ update_drafts ius.agg_pointer_result
            (aggregators p.granules (size_of_columns group_by + p.payload_offset)))

unfoldable pub reader_drafts : AggregationIus → List Column → Plan → List Draft
unfolding unpack read_drafts requires_complex_ht size_of_columns
reader_drafts ius group_by p =
    record {
      ius = ius.ht_scan_result ∷ [];
      source_ius = [];
      kind = hash_table_source (requires_complex_ht group_by);
    }
    ∷ (unpack ius.ht_scan_result 0 group_by
        ++ read_drafts ius.ht_scan_result (size_of_columns group_by) p.compute)

-- step 1 of `Join::decayPkJoin`
unfoldable pub build_drafts : JoinIus → List Column → List Draft
unfolding pack
build_drafts ius full_row_left =
    record {
      ius = ius.lookup_left ∷ [];
      source_ius = map (λ c. c.iu.id) full_row_left;
      kind = materialize_tuple;
    }
    ∷ pack ius.lookup_left 0 full_row_left

-- step 2.1
unfoldable pub probe_pack_drafts : JoinIus → List Column → List Draft
unfolding pack_pseudo
probe_pack_drafts ius full_row_right =
    record { ius = ius.scratch_pad_right ∷ []; source_ius = []; kind = scratch_pad }
    ∷ pack_pseudo ius.scratch_pad_right 0 full_row_right

abbrev pub is_left_semi : JoinType → Bool
is_left_semi left_semi = true
is_left_semi _ = false

-- step 2.2
unfoldable pub probe_drafts : JoinType → JoinIus → List Column → List Draft
probe_drafts type ius full_row_right =
    record {
      ius = ius.hash_right ∷ [];
      source_ius = ius.scratch_pad_right ∷ pseudos full_row_right;
      kind = ht_hash_and_prefetch;
    }
    ∷ record {
      ius = ius.lookup_right ∷ [];
      source_ius = ius.scratch_pad_right ∷ ius.hash_right ∷ [];
      kind = ht_lookup_with_hash (is_left_semi type);
    }
    ∷ []

-- the source of the continuation of an outer join
unfoldable pub outer_draft : JoinIus → Draft
outer_draft ius = record {
  ius = ius.lookup_right ∷ ius.scratch_pad_right ∷ [];
  source_ius = [];
  kind = outer_join_source;
}

-- steps 2.3 and 2.4
unfoldable pub match_drafts : JoinType → JoinIus → List Column → List Column → List Draft
unfolding unpack size_of_columns
match_drafts type ius full_row_left full_row_right =
    record {
      ius = ius.filter_pseudo_iu ∷ [];
      source_ius = ius.lookup_right ∷ [];
      kind = column_filter_scope;
    }
    ∷ record {
      ius = ius.filtered_build ∷ [];
      source_ius = ius.filter_pseudo_iu ∷ ius.lookup_right ∷ [];
      kind = column_filter_logic (pointer char) (pointer char);
    }
    ∷ (if is_left_semi type
        then unpack ius.filtered_build 0 full_row_left
        else record {
          ius = ius.filtered_probe ∷ [];
          source_ius = ius.filter_pseudo_iu ∷ ius.scratch_pad_right ∷ [];
          kind = column_filter_logic (byte_array (size_of_columns full_row_right)) (pointer char);
        }
          ∷ (unpack ius.filtered_build 0 full_row_left
              ++ unpack ius.filtered_probe 0 full_row_right))

-- `Print::decay`
unfoldable pub print_drafts : List Iu → List Draft
print_drafts = map λ iu. record { ius = []; source_ius = iu.id ∷ []; kind = fuse_chunk_sink }

unfoldable pub attach_outer : JoinType → JoinIus → Decay → Run Decay
unfolding attach_to_continuation outer_draft
attach_outer left_outer ius s = attach_to_continuation (outer_draft ius) s
attach_outer _ ius s = ok s

-- step 2 after the decay of the probe side
unfoldable pub probe_side : JoinType → JoinIus → List Column → List Column → Decay → Run Decay
unfolding attach_each probe_pack_drafts current_size probe_drafts close_guard attach_outer
    match_drafts
probe_side type ius full_row_left full_row_right s = do
  packed ← attach_each (probe_pack_drafts ius full_row_right) s
  size_at_start ← current_size packed
  probed ← attach_each (probe_drafts type ius full_row_right) packed
  guarded ← close_guard size_at_start probed
  split ← attach_outer type ius guarded
  attach_each (match_drafts type ius full_row_left full_row_right) split

-- the constructor of `PrettyPrinter`
unfoldable pub checks_columns : List Iu → List String → Bool
checks_columns ius colnames = not (length ius == 0) && length ius == length colnames

unfoldable mutual
  unfolding start_pipeline attach_each scan_drafts decay_roots filter_drafts plan aggregate_drafts
      reader_drafts build_drafts probe_side print_drafts checks_columns

  pub decay : RelAlgOp → Decay → Run Decay
  decay (table_scan num_columns driver_iu cols) s =
      let decayed = start_pipeline s >>= attach_each (scan_drafts driver_iu cols) in
      if num_columns == 0 then throws else decayed
  decay (expression out children) s = do
    s' ← decay_all children s
    b ← decay_roots out (record { built = λ _. none; decay = s' })
    ok b.decay
  decay (filter filter_iu pseudo_iu to_redefine (cons child nil)) s =
      decay child s >>= attach_each (filter_drafts filter_iu pseudo_iu to_redefine)
  decay (filter filter_iu pseudo_iu to_redefine _) s = throws
  decay (aggregation ius group_by aggregates children) s = do
    p ← plan (size_of_columns group_by) aggregates
    s' ← decay_all children s
    filled ← attach_each (aggregate_drafts ius group_by p) s'
    read ← start_pipeline filled
    attach_each (reader_drafts ius group_by p) read
  decay
        (join type is_pk ius keys_left payload_left keys_right payload_right
          (cons left (cons right nil)))
        s =
      let decayed = decay left s >>= λ s'.
      attach_each (build_drafts ius (keys_left ++ payload_left)) s' >>= λ built.
      decay right built
      >>= probe_side type ius (keys_left ++ payload_left) (keys_right ++ payload_right) in
      if is_pk then decayed else throws
  decay (join type is_pk ius keys_left payload_left keys_right payload_right _) s = throws
  decay (print ius colnames children) s =
      if checks_columns ius colnames
      then decay_all children s >>= attach_each (print_drafts ius)
      else throws

  pub decay_all : RelAlgOps → Decay → Run Decay
  decay_all nil s = ok s
  decay_all (cons op ops) s = decay op s >>= decay_all ops
