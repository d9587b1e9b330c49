-- ===== src/Tests/Chunks.antt =====
-- runtime/TupleMaterializer.cpp and runtime/MemoryRuntime.cpp.
use inkfuse.Base.{◌+◌, ◌*◌, ◌≤◌, ◌<◌, ◌≡◌, refl, inl, some, [], ◌∷◌, arith, get_elem?}
use inkfuse.Runtime.Run.{ok}
use inkfuse.Runtime.Materializer
use inkfuse.Runtime.Materializer.{
  Materializer, Pointer, new_materializer, alloc_new_chunk, take_slot, materialize, get_num_tuples,
  tuples_in, chunks, pull_chunk, materialize_all, pull_all, materialize_all-Apart, pull_all-chunks,
}
use inkfuse.Runtime.Memory
use inkfuse.Runtime.Memory.{Region, alloc, alloc_all, alloc_lem, alloc_all-Apart, AllSmall}

abbrev large_tuples : Materializer
large_tuples = record { tuple_size = 6000; full = []; current = 0 }

-- a chunk holds two of these tuples
two_in_a_chunk :
    (materialize_all 3 large_tuples).0
    ≡ record { chunk = 0; offset = 0 }
      ∷ record { chunk = 0; offset = 6000 }
      ∷ record { chunk = 1; offset = 0 }
      ∷ []
unfolding materialize_all materialize alloc_new_chunk take_slot
two_in_a_chunk = refl

large_tuples-IsValid : Materializer.IsValid large_tuples
large_tuples-IsValid = record { fits = omega arith; within = omega arith }

materialize_all-Apart_example :
    Materializer.Apart 6000 (Materializer.used large_tuples) (materialize_all 3 large_tuples).0
materialize_all-Apart_example = materialize_all-Apart 3 large_tuples large_tuples-IsValid

abbrev two_chunks : Materializer
two_chunks = record { tuple_size = 6000; full = 12000 ∷ []; current = 6000 }

pull_all-chunks_example :
    get_elem? (pull_all two_chunks 3 0) 1 ≡ some (ok (get_elem? (chunks two_chunks) (0 + 1)))
pull_all-chunks_example = pull_all-chunks two_chunks 3 1 0 (omega arith)

abbrev region : Region
region = record { regions = 1; region_offset = 510 }

region-IsValid : Memory.IsValid region
region-IsValid = (omega arith, inl (omega arith))

alloc_lem_example :
    let (a, r') = alloc region 20 in
    Memory.IsValid r'
    × (a.region < r'.regions)
    × (8 * a.slot + 20 ≤ Memory.region_size)
    × (Memory.used region ≤ Memory.position a)
    × (8 * Memory.position a + 20 ≤ 8 * Memory.used r')
alloc_lem_example = alloc_lem region 20 region-IsValid (omega arith)

alloc_all-Apart_example :
    Memory.Apart (8 * Memory.used region) (8 ∷ 20 ∷ 9 ∷ []) (alloc_all region (8 ∷ 20 ∷ 9 ∷ []))
alloc_all-Apart_example =
    alloc_all-Apart region (8 ∷ 20 ∷ 9 ∷ []) region-IsValid
      (omega arith, (omega arith, (omega arith, tt)))
