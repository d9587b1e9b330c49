-- ===== src/Tests/Fusion.antt =====
-- exec/PipelineExecutor.cpp: a small pipeline under relaxed operator fusion.
-- algebra/suboperators/sources/TableScanSource.cpp: a scan of 1000 rows by two threads.
use inkfuse.Base.{ℕ, ◌≡◌, ◌*◌, ◌-◌, map, min, refl, true, List, [], ◌∷◌, length}
use inkfuse.Runtime.Run.{ok}
use inkfuse.Algebra.{RofStrategy, default, begin_vectorized, end_vectorized}
use inkfuse.Exec.{set_up_rof, Step, compiled, interpreted, rof_morsel}
use inkfuse.Exec.Intervals.{begins_first, numbers, covered, rof_morsel_covers}
use inkfuse.Exec.Scan.{
  default_chunk_size, TScanDriver, pick_morsel, scan_morsels, rows_of, scan_morsels-rows_of,
}

abbrev marks : List RofStrategy
marks = default ∷ begin_vectorized ∷ end_vectorized ∷ default ∷ []

marks_steps :
    rof_morsel (λ _. true) 4 (set_up_rof marks)
    ≡ ok (compiled 0 1 ∷ interpreted 1 ∷ interpreted 2 ∷ compiled 3 4 ∷ [])
unfolding rof_morsel set_up_rof
marks_steps = refl

rof_morsel_covers_example :
    (steps : List Step) × (rof_morsel (λ _. true) (length marks) (set_up_rof marks) ≡ ok steps)
    × (covered steps ≡ numbers 0 (length marks))
unfolding begins_first
rof_morsel_covers_example = rof_morsel_covers (λ _. true) marks refl

abbrev calls : List ℕ
calls = 0 ∷ 1 ∷ 0 ∷ []

abbrev scan : TScanDriver
scan = record { rel_size = 1000; start_idx = 0; states = λ i. record { start = 0; end = 0 } }

scan_ends : map (λ m. m.end) (scan_morsels calls scan) ≡ 512 ∷ 1000 ∷ []
unfolding scan_morsels pick_morsel
scan_ends = refl

scan_morsels-rows_of_example :
    rows_of (scan_morsels calls scan)
    ≡ numbers scan.start_idx
        (min (scan.rel_size - scan.start_idx) (default_chunk_size * length calls))
scan_morsels-rows_of_example = scan_morsels-rows_of calls scan
