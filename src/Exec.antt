-- ===== src/Exec.antt =====
-- exec/PipelineExecutor.cpp: relaxed operator fusion, that is, the intervals of a pipeline that are
-- compiled, and the order in which a morsel runs through them and the interpreters.
--
-- A run of a runner is a step; what it does to the data is left out, and so are the restart flag,
-- the repeated runs after a restart, and the printer. Assertions are left out but for the one that a first interval exists.
pub mod Intervals
pub mod Scan
pub mod Swimlane
use inkfuse.Base.{
  ℕ, zero, suc, ◌+◌, ◌-◌, Bool, true, false, not, ◌&&◌, Option, none, some, List, [], ◌∷◌, ltb,
  ◌==◌, if◌then◌else◌, length,
}
use inkfuse.Runtime.Run.{Run, ok, throws, diverges, ◌>>=◌}
use inkfuse.Algebra.{RofStrategy, default, begin_vectorized, end_vectorized}

-- the loop of `setUpFusedAsync` over the strategies from suboperator `k` on; each interval is one
-- call of `attach_compile_state`
unfoldable pub compile_intervals : List RofStrategy → ℕ → ℕ → Bool → List (ℕ × ℕ)
compile_intervals [] k curr_interval_start in_vectorized_interval =
    if in_vectorized_interval then [] else (curr_interval_start, k) ∷ []
compile_intervals (begin_vectorized ∷ rs) k curr_interval_start in_vectorized_interval =
    (curr_interval_start, k) ∷ compile_intervals rs (k + 1) curr_interval_start true
compile_intervals (end_vectorized ∷ rs) k curr_interval_start in_vectorized_interval =
    compile_intervals rs (k + 1) (k + 1) false
compile_intervals (default ∷ rs) k curr_interval_start in_vectorized_interval =
    compile_intervals rs (k + 1) curr_interval_start in_vectorized_interval

-- `setUpFusedAsync` for ROF
unfoldable pub set_up_rof : List RofStrategy → List (ℕ × ℕ)
unfolding compile_intervals
set_up_rof strategies = compile_intervals strategies 0 0 false

pub data Step : Type 0 where
  compiled : ℕ → ℕ → Step
  interpreted : ℕ → Step
  skipped : ℕ → Step

-- the loop of `runROFMorsel`, with fuel for the rounds; `has_interpreter` tells the suboperators
-- with an interpreter
unfoldable pub rof_steps : (ℕ → Bool) → ℕ → ℕ → List (ℕ × ℕ) → ℕ → Run (List Step)
rof_steps has_interpreter size zero intervals current = diverges
rof_steps has_interpreter size (suc fuel) [] current =
    let rest = rof_steps has_interpreter size fuel [] (current + 1) in
    let step = if has_interpreter current then interpreted current else skipped current in
    if ltb current size then rest >>= (λ steps. ok (step ∷ steps)) else ok []
rof_steps has_interpreter size (suc fuel) ((start, end) ∷ intervals) current =
    let jump = rof_steps has_interpreter size fuel intervals end in
    let rest = rof_steps has_interpreter size fuel ((start, end) ∷ intervals) (current + 1) in
    let step = if has_interpreter current then interpreted current else skipped current in
    if ltb current size
    then if start == current
      then jump >>= (λ steps. ok (compiled start end ∷ steps))
      else rest >>= (λ steps. ok (step ∷ steps))
    else ok []

-- `runROFMorsel` when a morsel was picked
unfoldable pub rof_morsel : (ℕ → Bool) → ℕ → List (ℕ × ℕ) → Run (List Step)
unfolding rof_steps
rof_morsel has_interpreter size [] = throws
rof_morsel has_interpreter size ((start, end) ∷ intervals) =
    rof_steps has_interpreter size (size + length intervals + 1) intervals end
    >>= (λ steps. ok (compiled start end ∷ steps))
