-- ===== src/Tests/Plans.antt =====
-- algebra/: a query with a join, an expression, a filter and an aggregation, and plans of aggregates.
use Prim.Native.String.{String}
use inkfuse.Base.{
  ℕ, ◌+◌, ◌*◌, ◌<◌, ◌≡◌, refl, map, length, true, false, if◌then◌else◌, ◌==◌, none, some, List, [],
  ◌∷◌, arith,
}
use inkfuse.Runtime.Run.{Run, ok, throws}
use inkfuse.Operators.Types.{Iu, signed_int, boolean, byte_array, num_bytes}
use inkfuse.Operators.Aggregates.{Description, sum, avg, Plan, plan, last_size, aggregators}
use inkfuse.Operators.Aggregates.Layout.{AllRead, plan-AllRead}
use inkfuse.Operators.Aggregates.Ends.{ArePlanned, Apart, plan_ends}
use inkfuse.Operators.Attach.{multiply, less, cast, Decay}
use inkfuse.Operators.Expressions.{Node, iu_ref, compute, Nodes}
use inkfuse.Operators.{
  Column, inner, RelAlgOp, table_scan, expression, filter, aggregation, join, print, RelAlgOps,
  decay,
}
use inkfuse.Operators.Lowering.Query.{empty}

abbrev four : ℕ → Iu
four n = record { id = n; type = signed_int 4 }

abbrev col : ℕ → ℕ → ℕ → Column
col iu pseudo out = record { iu = four iu; pseudo = pseudo; out = out }

abbrev one : RelAlgOp → RelAlgOps
one op = RelAlgOps.cons op RelAlgOps.nil

-- two columns of each of two tables, joined on the first
abbrev joined : RelAlgOp
joined =
    join inner true
      (record {
        scratch_pad_right = 20;
        hash_right = 21;
        lookup_left = 22;
        lookup_right = 23;
        filter_pseudo_iu = 24;
        filtered_build = 25;
        filtered_probe = 26;
      })
      (col 1 0 31 ∷ []) (col 2 0 32 ∷ []) (col 4 27 33 ∷ []) (col 5 28 34 ∷ [])
      (RelAlgOps.cons (table_scan 2 0 (four 1 ∷ four 2 ∷ []))
        (one (table_scan 2 3 (four 4 ∷ four 5 ∷ []))))

-- the product of two columns, and a comparison that reads it
abbrev product : Node
product =
    compute 102 multiply (four 40)
      (Nodes.cons (iu_ref 100 (four 32)) (Nodes.cons (iu_ref 101 (four 34)) Nodes.nil)) none

abbrev comparison : Node
comparison =
    compute 103 less (record { id = 41; type = boolean })
      (Nodes.cons product (Nodes.cons (iu_ref 100 (four 32)) Nodes.nil)) none

abbrev labels : ℕ → Iu
labels n =
    if n == 100
    then four 32
    else if n == 101
    then four 34
    else if n == 102
    then four 40
    else record { id = 41; type = boolean }

-- the product and a column of what passes the comparison
abbrev filtered : RelAlgOp
filtered =
    filter (record { id = 41; type = boolean }) 50 (col 40 0 51 ∷ col 31 0 52 ∷ [])
      (one (expression (Nodes.cons comparison (Nodes.cons product Nodes.nil)) (one joined)))

abbrev aggregates : List Description
aggregates =
    record { agg_iu = four 51; code = sum; distinct = false; out = 63 }
    ∷ record { agg_iu = four 51; code = avg; distinct = false; out = 64 }
    ∷ []

abbrev grouped : RelAlgOp
grouped =
    aggregation (record { packed_ht_key = 60; agg_pointer_result = 61; ht_scan_result = 62 })
      (col 52 0 65 ∷ []) aggregates (one filtered)

abbrev printed : List Iu
printed = four 65 ∷ four 63 ∷ []

abbrev names : List String
names = "key" ∷ "total" ∷ []

aggregates_planned : ArePlanned aggregates
unfolding num_bytes
aggregates_planned = (refl, tt, omega arith, (refl, tt, omega arith, tt))

pipeline_sizes : Run Decay → List ℕ
pipeline_sizes (ok s) = map (λ p. length p.suboperators) s.dag.pipelines
pipeline_sizes _ = []

query_pipelines : pipeline_sizes (decay (print printed names (one grouped)) empty) ≡ 6 ∷ 23 ∷ 6 ∷ []
unfolding pipeline_sizes decay plan
query_pipelines = refl

-- a filter of a byte array, a cast with a runtime parameter, and a scan without a column throw
abbrev bytes : Iu
bytes = record { id = 1; type = byte_array 8 }

byte_array_is_not_filtered :
    decay
      (filter
        (four 2)
        3
        (record { iu = bytes; pseudo = 0; out = 4 } ∷ [])
        (one (table_scan 1 0 (bytes ∷ four 2 ∷ []))))
      empty
    ≡ throws
unfolding decay
byte_array_is_not_filtered = refl

cast_has_no_parameter :
    decay
      (expression
        (Nodes.cons
          (compute 6 cast (four 7) (Nodes.cons (iu_ref 5 (four 2)) Nodes.nil) (some (signed_int 4)))
          Nodes.nil)
        (one (table_scan 1 0 (four 2 ∷ []))))
      empty
    ≡ throws
unfolding decay
cast_has_no_parameter = refl

scan_needs_a_column : decay (table_scan 0 0 []) empty ≡ throws
unfolding decay
scan_needs_a_column = refl

-- keys of four bytes, and the plan of the two aggregates over one column
abbrev planned : Plan
unfolding plan
planned = elim (plan 4 aggregates) [
  | ok p ↦ p
  | _ ↦ record { granules = []; compute = []; payload_offset = 0; payload_size = 0 }
]

plan-AllRead_example :
    AllRead aggregates planned.compute 4 (aggregators planned.granules (4 + planned.payload_offset))
unfolding plan planned
plan-AllRead_example = plan-AllRead 4 aggregates planned refl

plan_ends_example :
    (p : Plan) × (step n : ℕ) × (plan 4 aggregates ≡ ok p)
    × (last_size p.granules ≡ ok step)
    × (4 + p.payload_offset ≡ n * step)
    × (p.payload_offset < step)
    × Apart 4 (aggregators p.granules (4 + p.payload_offset)) (4 + p.payload_size)
plan_ends_example =
    plan_ends 4 (record { agg_iu = four 51; code = sum; distinct = false; out = 63 })
      (record { agg_iu = four 51; code = avg; distinct = false; out = 64 } ∷ []) aggregates_planned
