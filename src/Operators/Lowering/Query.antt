-- ===== src/Operators/Lowering/Query.antt =====
-- algebra/RelAlgOp.h: the decay of a whole query.
use inkfuse.Base.{[]}
use Prim.Native.String.{String}
use inkfuse.Operators.Attach.{Decay}

abbrev pub empty : Decay
empty = record { dag = record { pipelines = []; continuations = [] }; next = 0; kinds = [] }
