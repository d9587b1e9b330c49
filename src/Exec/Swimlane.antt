-- ===== src/Exec/Swimlane.antt =====
-- exec/PipelineExecutor.cpp and algebra/Print.cpp: the loop of a thread over the morsels of a scan in
-- each execution mode, with the switch between interpreted and compiled code.
--
-- A run of a morsel is kept with the backend that ran it; `produced` says how many rows it brings
-- to the sink. What is measured or happens on another thread is given by round: whether compiled code
-- is ready, and how the throughputs compare. The text that is printed, the restart of a morsel and the
-- barrier are left out.
pub mod Rows
pub mod Ends
use inkfuse.Base.{
  ℕ, zero, suc, ◌+◌, ◌-◌, ◌%◌, Bool, true, false, not, ◌&&◌, Option, none, some, List, [], ◌∷◌,
  ◌++◌, ltb, leb, ◌==◌, if◌then◌else◌, min,
}
use inkfuse.Runtime.Run.{Run, ok, diverges, ◌>>=◌}
use inkfuse.Exec.Scan.{LoopDriverState, TScanDriver, pick_morsel}

pub data ExecutionMode : Type 0 where
  fused interpreted rof hybrid : ExecutionMode

pub record PrettyPrinter : Type 0 where
  pub num_rows : ℕ
  pub limit : Option ℕ

-- `limit && *limit == 0`
unfoldable pub is_closed : Option ℕ → Bool
is_closed none = false
is_closed (some n) = n == 0

unfoldable pub mark_morsel_done : ℕ → PrettyPrinter → Bool × PrettyPrinter
unfolding is_closed
mark_morsel_done chunk_size p = elim p.limit [
  | none ↦ (false, record { num_rows = p.num_rows + chunk_size; limit = none })
  | some limit ↦
      let write = min chunk_size limit in
      (
        is_closed (some (limit - write)),
        record { num_rows = p.num_rows + write; limit = some (limit - write) },
      )
]

-- The mode of an entry of `morsels` is the backend that ran it.
pub record Lane : Type 0 where
  pub driver : TScanDriver
  pub printer : Option PrettyPrinter
  pub morsels : List (ExecutionMode × LoopDriverState)

pub record Measures : Type 0 where
  pub fused_set_up : ℕ → Bool
  pub compiled_faster : ℕ → Bool
  pub compiled_clearly : ℕ → Bool
  pub compiled_ahead : ℕ → Bool
  pub interpreted_clearly : ℕ → Bool
  pub interpreted_ahead : ℕ → Bool

-- `computeTrials`, with the comparisons of the throughputs
unfoldable pub compute_trials : Bool → Bool → Bool → Bool → ℕ × ℕ
compute_trials compiled_clearly compiled_ahead interpreted_clearly interpreted_ahead =
    if compiled_clearly
    then (4, 1)
    else if compiled_ahead
    then (4, 2)
    else if interpreted_clearly
    then (1, 4)
    else if interpreted_ahead
    then (2, 4)
    else (4, 4)

-- the backend of a round of the hybrid mode
unfoldable pub choose : ℕ → ℕ × ℕ → Bool → ExecutionMode
choose it_counter (compile_trials, interpret_trials) compiled_faster =
    if ltb (it_counter % 40) compile_trials
    then fused
    else if leb compile_trials (it_counter % 40)
        && ltb (it_counter % 40) (compile_trials + interpret_trials)
    then interpreted
    else if compiled_faster
    then fused
    else interpreted

module _ (produced : LoopDriverState → ℕ) (thread_id : ℕ) where
  -- the printer at the end of a morsel
  unfoldable pub finish : ℕ → Lane → Bool × Lane
  unfolding mark_morsel_done
  finish chunk_size l = elim l.printer [
    | none ↦ (true, l)
    | some printer ↦
        let done = mark_morsel_done chunk_size printer in
        (not done.0, record l { printer = some done.1 })
  ]

  -- `runFusedMorsel`, `runInterpretedMorsel` and `runROFMorsel`: whether there may be more morsels
  unfoldable pub run_morsel : ExecutionMode → Lane → Bool × Lane
  unfolding finish pick_morsel
  run_morsel backend l =
      let picked = pick_morsel thread_id l.driver in
      let driver = picked.1 in
      elim picked.0 [
        | none ↦ (false, record l { driver = driver })
        | some size ↦
            let state = driver.states thread_id in
            finish (produced state)
              (record l { driver = driver; morsels = l.morsels ++ (backend, state) ∷ [] })
      ]

  -- the loops of one backend
  unfoldable pub run_all : ExecutionMode → ℕ → Lane → Run Lane
  unfolding run_morsel
  run_all backend zero l = diverges
  run_all backend (suc fuel) l =
      let next = run_morsel backend l in
      let rest = run_all backend fuel next.1 in if next.0 then rest else ok next.1

  -- the loop until compiled code is ready, with `terminate` at its end
  unfoldable pub run_until_ready : Measures → ℕ → ℕ → Lane → Run (Bool × Lane)
  unfolding run_morsel
  run_until_ready m round zero l = diverges
  run_until_ready m round (suc fuel) l =
      let next = run_morsel interpreted l in
      let rest = run_until_ready m (round + 1) fuel next.1 in
      if next.0 && not (m.fused_set_up round) then rest else ok (not next.0, next.1)

  -- the loop that chooses a backend
  unfoldable pub run_adaptive : Measures → ℕ → ℕ × ℕ → ℕ → Lane → Run Lane
  unfolding run_morsel choose compute_trials
  run_adaptive m it_counter trials zero l = diverges
  run_adaptive m it_counter trials (suc fuel) l =
      let next = run_morsel (choose it_counter trials (m.compiled_faster it_counter)) l in
      let new_trials =
        compute_trials (m.compiled_clearly it_counter) (m.compiled_ahead it_counter)
          (m.interpreted_clearly it_counter) (m.interpreted_ahead it_counter) in
      let rest = run_adaptive m (it_counter + 1) new_trials fuel next.1 in
      if next.0 then rest else ok next.1

  unfoldable pub thread_swimlane : Measures → ExecutionMode → ℕ → Lane → Run Lane
  unfolding run_all run_until_ready run_adaptive
  thread_swimlane m hybrid fuel l = do
    (terminate, l') ← run_until_ready m 0 fuel l
    if terminate then ok l' else run_adaptive m 0 (4, 4) fuel l'
  thread_swimlane m mode fuel l = run_all mode fuel l
