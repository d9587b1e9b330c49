-- ===== src/Exec/Swimlane/Ends.antt =====
-- exec/PipelineExecutor.cpp: the loops over the morsels end, and run each row once.
use inkfuse.Base.{
  ℕ, zero, suc, ◌+◌, ◌-◌, ◌<◌, ◌≡◌, ◌⊎◌, inl, inr, refl, sym, ap, subst, ◌∙◌, Bool, true, false,
  not, Option, none, some, [], ◌∷◌, ◌++◌, arith, leb, ◌==◌, min, update, Bool-cases, ==→eq, eq→==,
}
use mathlib.Core.List.{append-nil}
use inkfuse.Runtime.Run.{ok, ◌>>=◌}
use inkfuse.Exec.Intervals.{numbers}
use inkfuse.Exec.Scan.{default_chunk_size, LoopDriverState, TScanDriver, pick_morsel}
use inkfuse.Exec.Swimlane.{
  ExecutionMode, fused, interpreted, rof, hybrid, PrettyPrinter, is_closed, mark_morsel_done, Lane,
  Measures, compute_trials, choose, finish, run_morsel, run_all, run_until_ready, run_adaptive,
  thread_swimlane,
}
use inkfuse.Exec.Swimlane.Rows.{
  rows_run, rows_run-append, left, Ends, Continues, Continues-trans, Picked-Continues, full-Ends,
  Outcome,
}

module _ (produced : LoopDriverState → ℕ) (thread_id : ℕ) where
  finish-Outcome :
      (chunk_size : ℕ) (l l' : Lane)
      → ((o : Option PrettyPrinter) → Continues l (record l' { printer = o }))
      → Continues l l'
      → Outcome l (finish produced thread_id chunk_size l')
  unfolding finish mark_morsel_done is_closed
  finish-Outcome chunk_size l l' c c' = printer_cases l'.printer
    where
      limit_cases :
          (p : PrettyPrinter) (o : Option ℕ)
          → let done : Bool × PrettyPrinter = elim o [
            | none ↦ (false, record { num_rows = p.num_rows + chunk_size; limit = none })
            | some limit ↦
                let write = min chunk_size limit in
                (
                  is_closed (some (limit - write)),
                  record { num_rows = p.num_rows + write; limit = some (limit - write) },
                )
          ] in
            Outcome l (not done.0, record l' { printer = some done.1 })
      limit_cases p none =
          inr (refl, c (some (record { num_rows = p.num_rows + chunk_size; limit = none })))
      limit_cases p (some limit) =
          let write = min chunk_size limit in
          let p' : PrettyPrinter = record {
            num_rows = p.num_rows + write;
            limit = some (limit - write);
          } in
          let l'' : Lane = record l' { printer = some p' } in
          elim (Bool-cases (limit - write == 0)) [
            | inr open_ ↦ inr (rw open_ refl, c (some p'))
            | inl full ↦
                let e : limit - write ≡ 0 = ==→eq (limit - write) 0 full in
                inl (rw full refl, (c (some p')).ends l'' (full-Ends l'' (p', refl, ap some e)))
          ]

      printer_cases :
          (o : Option PrettyPrinter)
          → Outcome l (elim o [
            | none ↦ (true, l')
            | some printer ↦
                let done = mark_morsel_done chunk_size printer in
                (not done.0, record l' { printer = some done.1 })
          ])
      printer_cases none = inr (refl, c')
      printer_cases (some p) = limit_cases p p.limit

  run_morsel-Outcome :
      (b : ExecutionMode) (l : Lane) → Outcome l (run_morsel produced thread_id b l)
  unfolding run_morsel pick_morsel numbers
  run_morsel-Outcome b l = elim (Bool-cases (leb l.driver.rel_size l.driver.start_idx)) [
    | inl over ↦
        let e : pick_morsel thread_id l.driver ≡ (none, advanced) = (rw (pick_morsel, over) refl) in
        subst (λ p. Outcome l (by_pick p)) (sym e)
          (inl (
            refl,
            record {
              ran = 0;
              rows = sym (append-nil (rows_run l.morsels));
              fits = omega arith;
              all = inl (ground (arith, over));
            },
          ))
    | inr some_ ↦
        let e : pick_morsel thread_id l.driver ≡ (some width_of, picked) =
          (rw (pick_morsel, some_) refl) in
        subst (λ p. Outcome l (by_pick p)) (sym e)
          (finish-Outcome (produced morsel) l next
            (λ o.
              Picked-Continues l (record next { printer = o }) (ground (arith, some_)) refl refl
                rows)
            (Picked-Continues l next (ground (arith, some_)) refl refl rows))
  ]
    where
      by_pick : Option ℕ × TScanDriver → Bool × Lane
      by_pick p = elim p.0 [
        | none ↦ (false, record l { driver = p.1 })
        | some size ↦
            let state = p.1.states thread_id in
            finish produced thread_id (produced state)
              (record l { driver = p.1; morsels = l.morsels ++ (b, state) ∷ [] })
      ]

      start_idx : ℕ
      start_idx = l.driver.start_idx

      advanced : TScanDriver
      advanced = record l.driver { start_idx = start_idx + default_chunk_size }

      width_of : ℕ
      width_of = min (start_idx + default_chunk_size) l.driver.rel_size - start_idx

      picked : TScanDriver
      picked = record l.driver {
        start_idx = start_idx + default_chunk_size;
        states = update l.driver.states thread_id (record {
          start = start_idx;
          end = min (start_idx + default_chunk_size) l.driver.rel_size;
        });
      }

      morsel : LoopDriverState
      morsel = picked.states thread_id

      next : Lane
      next = record l { driver = picked; morsels = l.morsels ++ (b, morsel) ∷ [] }

      here : (thread_id == thread_id) ≡ true
      here = eq→== thread_id thread_id refl

      is_morsel : morsel ≡ record {
        start = start_idx;
        end = min (start_idx + default_chunk_size) l.driver.rel_size;
      }
      is_morsel = rw here refl

      width : min (start_idx + default_chunk_size) l.driver.rel_size - start_idx ≡ min 512 (left l)
      width = omega arith

      rows : rows_run next.morsels ≡ rows_run l.morsels ++ numbers start_idx (min 512 (left l))
      rows =
          rows_run-append l.morsels b morsel
          ∙ ap (λ (m : LoopDriverState). rows_run l.morsels ++ numbers m.start (m.end - m.start))
              is_morsel
          ∙ ap (λ k. rows_run l.morsels ++ numbers start_idx k) width

  run_all-Ends :
      (b : ExecutionMode) (fuel : ℕ) (l : Lane)
      → left l < fuel
      → (l' : Lane) × (run_all produced thread_id b fuel l ≡ ok l') × Ends l l'
  unfolding run_all
  run_all-Ends b zero l less = absurd (omega (arith, less))
  run_all-Ends b (suc fuel) l less = elim (run_morsel-Outcome b l) [
    | inl (stop, e) ↦ ((run_morsel produced thread_id b l).1, rw stop refl, e)
    | inr (go_on, c) ↦
        let (l', ran, e) =
          run_all-Ends b fuel (run_morsel produced thread_id b l).1
            (omega (arith, less, c.fewer)) in
        (l', rw go_on ran, c.ends l' e)
  ]

  run_until_ready-Ends :
      (m : Measures) (round fuel : ℕ) (l : Lane)
      → left l < fuel
      → (t : Bool) × (l' : Lane) × (run_until_ready produced thread_id m round fuel l ≡ ok (t, l'))
        × (((t ≡ true) × Ends l l') ⊎ ((t ≡ false) × Continues l l'))
  unfolding run_until_ready
  run_until_ready-Ends m round zero l less = absurd (omega (arith, less))
  run_until_ready-Ends m round (suc fuel) l less =
      let next = (run_morsel produced thread_id interpreted l).1 in
      elim (run_morsel-Outcome interpreted l) [
        | inl (stop, e) ↦ (true, next, rw stop refl, inl (refl, e))
        | inr (go_on, c) ↦ elim (Bool-cases (m.fused_set_up round)) [
          | inl ready_ ↦ (false, next, rw (go_on, ready_) refl, inr (refl, c))
          | inr wait ↦
              let (t, l', ran, out) =
                run_until_ready-Ends m (round + 1) fuel next (omega (arith, less, c.fewer)) in
              (
                t,
                l',
                rw (go_on, wait) ran,
                elim out [
                  | inl (e, done) ↦ inl (e, c.ends l' done)
                  | inr (e, d) ↦ inr (e, Continues-trans l next l' c d)
                ],
              )
        ]
      ]

  run_adaptive-Ends :
      (m : Measures) (it_counter : ℕ) (trials : ℕ × ℕ) (fuel : ℕ) (l : Lane)
      → left l < fuel
      → (l' : Lane) × (run_adaptive produced thread_id m it_counter trials fuel l ≡ ok l')
        × Ends l l'
  unfolding run_adaptive
  run_adaptive-Ends m it_counter trials zero l less = absurd (omega (arith, less))
  run_adaptive-Ends m it_counter trials (suc fuel) l less =
      let b = choose it_counter trials (m.compiled_faster it_counter) in
      elim (run_morsel-Outcome b l) [
        | inl (stop, e) ↦ ((run_morsel produced thread_id b l).1, rw stop refl, e)
        | inr (go_on, c) ↦
            let (l', ran, e) =
              run_adaptive-Ends m (it_counter + 1)
                (compute_trials (m.compiled_clearly it_counter) (m.compiled_ahead it_counter)
                  (m.interpreted_clearly it_counter) (m.interpreted_ahead it_counter))
                fuel (run_morsel produced thread_id b l).1 (omega (arith, less, c.fewer)) in
            (l', rw go_on ran, c.ends l' e)
      ]

-- In every mode, and whatever is measured, a thread that is alone on a scan ends: one round for each
-- row and one more are enough. It has run the rows from the start index on in order and each once,
-- all of them unless its printer has reached the limit.
pub thread_swimlane-Ends :
    (produced : LoopDriverState → ℕ) (thread_id : ℕ) (m : Measures) (mode : ExecutionMode)
    (fuel : ℕ) (l : Lane)
    → left l < fuel
    → (l' : Lane) × (thread_swimlane produced thread_id m mode fuel l ≡ ok l') × Ends l l'
unfolding thread_swimlane
thread_swimlane-Ends produced thread_id m fused fuel l less =
    run_all-Ends produced thread_id fused fuel l less
thread_swimlane-Ends produced thread_id m interpreted fuel l less =
    run_all-Ends produced thread_id interpreted fuel l less
thread_swimlane-Ends produced thread_id m rof fuel l less =
    run_all-Ends produced thread_id rof fuel l less
thread_swimlane-Ends produced thread_id m hybrid fuel l less =
    let (t, l', ran, out) = run_until_ready-Ends produced thread_id m 0 fuel l less in
    elim out [
      | inl (e, done) ↦ (l', rw (ran, ◌>>=◌, e) refl, done)
      | inr (e, c) ↦
          let (l'', ran', done) =
            run_adaptive-Ends produced thread_id m 0 (4, 4) fuel l'
              (omega (arith, less, c.fewer)) in
          (l'', rw (ran, ◌>>=◌, e) ran', c.ends l'' done)
    ]
