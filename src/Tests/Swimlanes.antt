-- ===== src/Tests/Swimlanes.antt =====
-- exec/PipelineExecutor.cpp: one thread on a scan of 1300 rows.
use inkfuse.Base.{ℕ, ◌-◌, ◌≡◌, refl, true, false, Option, none, some, List, [], ◌∷◌, arith}
use inkfuse.Runtime.Run.{ok, ◌>>=◌}
use inkfuse.Exec.Scan.{LoopDriverState, pick_morsel}
use inkfuse.Exec.Swimlane.{
  ExecutionMode, fused, interpreted, hybrid, is_closed, mark_morsel_done, Lane, Measures,
  compute_trials, choose, finish, run_morsel, run_all, run_until_ready, run_adaptive,
  thread_swimlane,
}
use inkfuse.Exec.Swimlane.Rows.{Ends}
use inkfuse.Exec.Swimlane.Ends.{thread_swimlane-Ends}

swimlane_program : Unit {0}
unfolding pick_morsel is_closed mark_morsel_done compute_trials choose finish run_morsel run_all
    run_until_ready run_adaptive thread_swimlane
swimlane_program = tt

abbrev scan_1300 : Option ℕ → Lane
scan_1300 limit = record {
  driver = record { rel_size = 1300; start_idx = 0; states = λ _. record { start = 0; end = 0 } };
  printer = some (record { num_rows = 0; limit = limit });
  morsels = [];
}

-- Compiled code is ready behind the first morsel.
abbrev measures : Measures
measures = record {
  fused_set_up = λ _. true;
  compiled_faster = λ _. true;
  compiled_clearly = λ _. false;
  compiled_ahead = λ _. false;
  interpreted_clearly = λ _. false;
  interpreted_ahead = λ _. false;
}

abbrev all_rows : LoopDriverState → ℕ
all_rows m = m.end - m.start

-- the backends, with the ends of the morsels that they ran
abbrev ran_by : List (ExecutionMode × LoopDriverState) → List (ExecutionMode × ℕ)
ran_by [] = []
ran_by (m ∷ ms) = (m.0, (m.1).end) ∷ ran_by ms

hybrid_run :
    (thread_swimlane all_rows 0 measures hybrid 5 (scan_1300 none) >>= λ l. ok (ran_by l.morsels))
    ≡ ok ((interpreted, 512) ∷ (fused, 1024) ∷ (fused, 1300) ∷ [])
unfolding swimlane_program
hybrid_run = refl

-- A limit closes the output early.
limited_run :
    (thread_swimlane all_rows 0 measures hybrid 5 (scan_1300 (some 600)) >>= λ l.
    ok (ran_by l.morsels))
    ≡ ok ((interpreted, 512) ∷ (fused, 1024) ∷ [])
unfolding swimlane_program
limited_run = refl

thread_swimlane-Ends_example :
    (l' : Lane) × (thread_swimlane all_rows 0 measures hybrid 1301 (scan_1300 (some 600)) ≡ ok l')
    × Ends (scan_1300 (some 600)) l'
thread_swimlane-Ends_example =
    thread_swimlane-Ends all_rows 0 measures hybrid 1301 (scan_1300 (some 600)) (omega arith)
