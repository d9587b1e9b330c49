-- ===== src/Lib.antt =====
-- InkFuse: the data structures that its queries run on, the decay of queries into pipelines, and the
-- order of their code.
--
-- InkFuse runs a query as pipelines of suboperators. Rows come from relations that were loaded
-- from text, are packed and materialised, and meet in hash tables; each thread takes its memory
-- from regions. The files follow these parts.
--
-- * `Runtime` (runtime/HashTables.cpp, NewHashTables.cpp, TupleMaterializer.cpp, MemoryRuntime.cpp):
--   `Tags` are the one-byte tags of slots. `Probe` and `Scan` are the two loops over slots, which
--   all tables share. `Comparator` says how a table reads the keys in its rows. `SimpleKey` is
--   `HashTableSimpleKey` on `SharedHashTableState`: `lookup`, `lookup_or_insert`, `insert`,
--   `lookup_disable`, `reserve_slot`, the iterators. Its children prove what the table keeps:
--   `Chain` is the invariant and `lookup`, `Write` and `Fill` one write to a slot, `Resize` and
--   `Reserve` the doubling, `Map` the table as a map, `Disable` and `Iterate` the rest. `Atomic` is
--   `AtomicHashTable`, with `Concurrent` for `insert` on several threads, as a sequence of atomic
--   actions; `Safety` and `Build` are about such sequences, `Outer` about outer joins.
--   `StringKey` is `HashTableComplexKey`, and `Refine` leads it back to `SimpleKey`. `DirectLookup` is
--   `HashTableDirectLookup`. `Materializer` and `Memory` hand out space.
-- * `Storage` (storage/Relation.cpp): columns and `loadRow`. `Fields` describes a row by its fields,
--   `Rows` compares `loadRow` with it, `Lengths` is about `loadRows`, `Missing` about a line that is
--   too short, and `Schema` about columns by name and by index.
-- * `Algebra` (algebra/Pipeline.h, Pipeline.cpp): pipelines with their graph (`Graph`), the
--   continuations of the DAG (`Continuations`), `repipe` (`Repipe`) and the scope of relaxed
--   operator fusion (`Fusion`).
-- * `Operators` (algebra/RelAlgOp.h and the operators beside it): `decay` of a tree of relational
--   operators into the suboperators of pipelines, on the operations of `Algebra`. `Types` are the
--   types of columns, `Aggregates` the registry of aggregate functions and `Aggregation::plan`,
--   `Expressions` the nodes of `ExpressionOp`, and `Attach` what attaches one suboperator to the
--   current pipeline. `Closed`, `Attached`, `Drafts` and `Lowering` prove that what a pipeline reads
--   is provided in it, and `Accepted` that no constructor of a suboperator throws. The loop that aligns the payload of an aggregation has fuel for one round per
--   byte of the key and one more.
-- * `Codegen` (algebra/CompilationContext.cpp, suboperators/ColumnFilter.cpp): the order in which the
--   code of the suboperators of a pipeline is generated. Calls that are still to be made are a list
--   of tasks, and the number of calls is the fuel of `run`. `Steps` are single calls, `Orderly` says
--   which pipelines are looked at and what the order of code is, and `Progress` what holds between
--   two calls. `Requests` and `Own` follow the requests that a suboperator makes for its filters and
--   for itself, `Opening` the whole of `open`, `Tops` the sinks, and `Compile` puts this together.
-- * `Exec` (exec/PipelineExecutor.cpp): the intervals of a pipeline that relaxed operator fusion
--   compiles, and the order in which a morsel runs through them and the interpreters
--   (`Intervals`). Its loop has fuel for one round per suboperator and interval.
--   `Swimlane` is the loop of a thread over the morsels in each execution mode, with the switch
--   between interpreted and compiled code; one round per row and one more is enough for it.
--   `Scan` is the table scan of algebra/suboperators/sources/TableScanSource.cpp, whose threads pick
--   morsels from a shared index.
-- * `Tests` are runs on small inputs. `Base` holds what the parts share.
--
-- State is passed on explicitly. The arrays of a table are functions of the slot's index, and a
-- `char*` into a table is the index of its slot; bytes behind it are a list. Numbers are natural
-- numbers, with the wrap-around of a narrower type written out where a value can reach it: the tags
-- (8 bits), slot sizes (16 bits) and field lengths (32 bits). A call ends as a `Run`: a value, an
-- exception, or no end. A failed assertion counts as an exception. A probing loop has fuel for one round per slot, which is enough whenever a
-- slot ends it, and an iterator has two rounds more than slots.
--
-- Not modelled: XXH3, the conversions of text to numbers and dates, and the strings behind
-- pointers, which are parameters; `buildMergeTables` of the tables with hashed keys, which
-- estimates in floating point; the runtime state of a pipeline DAG, and the tasks that run between
-- pipelines; the restart of a morsel and the barrier between threads, floating point, the statements
-- of generated code;
-- prefetching, files, and the layout of memory. Outer joins decay, but the theorem about decay
-- leaves them out; joins that are not on a primary key throw in the source. Tables that exceed the
-- address space are not considered.
mod Base
pub mod Runtime
pub mod Algebra
pub mod Operators
pub mod Codegen
pub mod Exec
pub mod Storage
pub mod Tests
