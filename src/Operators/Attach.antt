-- ===== src/Operators/Attach.antt =====
-- algebra/suboperators/ and Pipeline.cpp: the suboperators that relational operators decay into, and
-- how they are attached to the current pipeline.
--
-- `next` is the id that stands for the address of the next suboperator. Of the parameters of a
-- suboperator its kind keeps the offsets into rows and the types that its constructor tests. The
-- packers and unpackers of rows are only built with pointers to `Char` and byte arrays, so that
-- their test never fails.
use inkfuse.Base.{
  ℕ, ◌+◌, Bool, true, false, not, if◌then◌else◌, Option, none, some, List, [], ◌∷◌, ◌++◌, length,
}
use inkfuse.Runtime.Run.{Run, ok, throws, ◌>>=◌}
use inkfuse.Operators.Types.{IrType, char, byte_array, pointer}
use inkfuse.Operators.Aggregates.{AggState, AggCompute}
use inkfuse.Algebra.{
  default, Subop, attach_suboperator, Dag, back, set_back, build_new_pipeline, attach_continuation,
  end_scope,
}

-- `ComputeNode::Type`
pub data Code : Type 0 where
  add cast subtract multiply divide eq neq less and or less_equal greater greater_equal constant :
      Code
  str_equals in_list not_like_tokens : Code

pub data Kind : Type 0 where
  tscan_driver tscan_iu_provider column_filter_scope scratch_pad : Kind
  column_filter_logic : IrType → IrType → Kind
  expression : Code → Kind
  runtime_expression : Code → IrType → Kind
  key_packer key_unpacker : ℕ → Kind
  materialize_tuple ht_no_key_lookup ht_hash_and_prefetch fuse_chunk_sink : Kind
  ht_lookup_or_insert hash_table_source ht_lookup_with_hash : Bool → Kind
  outer_join_source : Kind
  aggregator : AggState → ℕ → Kind
  agg_reader : AggCompute → List ℕ → Kind

unfoldable pub outgoing_strong_links : Kind → Bool
outgoing_strong_links tscan_driver = true
outgoing_strong_links column_filter_scope = true
outgoing_strong_links scratch_pad = true
outgoing_strong_links _ = false

unfoldable pub incoming_strong_links : Kind → Bool
incoming_strong_links tscan_iu_provider = true
incoming_strong_links (column_filter_logic incoming redefined) = true
incoming_strong_links _ = false

unfoldable pub is_tuple_materializer : Kind → Bool
is_tuple_materializer materialize_tuple = true
is_tuple_materializer _ = false

-- `type->id() == "Ptr_Char"`
unfoldable pub is_char_pointer : IrType → Bool
is_char_pointer (pointer char) = true
is_char_pointer _ = false

-- The constructors that throw: of `ColumnFilterLogic`, for the type of the column and of what it
-- becomes, and of `RuntimeExpressionSubop`.
unfoldable pub refuses : Kind → Bool
unfolding is_char_pointer
refuses (column_filter_logic (byte_array size) redefined) = not (is_char_pointer redefined)
refuses (runtime_expression cast type) = true
refuses _ = false

-- What a `build` of a suboperator is given.
pub record Draft : Type 0 where
  pub ius : List ℕ
  pub source_ius : List ℕ
  pub kind : Kind

unfoldable pub build : ℕ → Draft → Subop
unfolding outgoing_strong_links incoming_strong_links is_tuple_materializer
build id d = record {
  id = id;
  ius = d.ius;
  source_ius = d.source_ius;
  rof = default;
  incoming_strong_links = incoming_strong_links d.kind;
  outgoing_strong_links = outgoing_strong_links d.kind;
  is_tuple_materializer = is_tuple_materializer d.kind;
}

pub record Decay : Type 0 where
  pub dag : Dag
  pub next : ℕ
  pub kinds : List (ℕ × Kind)

abbrev of_assertion {ℓ} : {A : Type ℓ} → Option A → Run A
of_assertion none = throws
of_assertion (some a) = ok a

-- `getCurrentPipeline().attachSuboperator(...)`, with the constructor of the suboperator
unfoldable pub attach : Draft → Decay → Run Decay
unfolding back set_back attach_suboperator build refuses
attach d s = do
  accepted ← if refuses d.kind then throws else ok d
  curr ← of_assertion (back s.dag.pipelines)
  ok (record {
    dag = record s.dag {
      pipelines = set_back (attach_suboperator (build s.next accepted) curr) s.dag.pipelines;
    };
    next = s.next + 1;
    kinds = s.kinds ++ (s.next, accepted.kind) ∷ [];
  })

unfoldable pub attach_each : List Draft → Decay → Run Decay
unfolding attach
attach_each [] s = ok s
attach_each (d ∷ ds) s = attach d s >>= attach_each ds

-- `buildNewPipeline`
unfoldable pub start_pipeline : Decay → Run Decay
unfolding build_new_pipeline
start_pipeline s = do dag ← of_assertion (build_new_pipeline s.dag); ok (record s { dag = dag })

-- `attachContinuation().attachSuboperator(...)`
unfoldable pub attach_to_continuation : Draft → Decay → Run Decay
unfolding attach_continuation back set_back attach_suboperator build
attach_to_continuation d s = do
  dag ← of_assertion (attach_continuation s.dag)
  (subop_idx, pipe) ← of_assertion (back dag.continuations)
  ok (record {
    dag = record dag {
      continuations =
          set_back (subop_idx, attach_suboperator (build s.next d) pipe) dag.continuations;
    };
    next = s.next + 1;
    kinds = s.kinds ++ (s.next, d.kind) ∷ [];
  })

-- the number of suboperators in the current pipeline, which `ROFScopeGuard` remembers
unfoldable pub current_size : Decay → Run ℕ
unfolding back
current_size s = do curr ← of_assertion (back s.dag.pipelines); ok (length curr.suboperators)

-- the end of the `ROFScopeGuard`
unfoldable pub close_guard : ℕ → Decay → Run Decay
unfolding back set_back end_scope
close_guard size_at_start s = do
  curr ← of_assertion (back s.dag.pipelines)
  ok (record s {
    dag = record s.dag {
      pipelines =
          set_back (record curr { suboperators = end_scope size_at_start curr.suboperators })
            s.dag.pipelines;
    };
  })
