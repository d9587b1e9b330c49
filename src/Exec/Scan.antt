-- ===== src/Exec/Scan.antt =====
-- algebra/suboperators/sources/TableScanSource.cpp: the morsels of a table scan.
--
-- `fetch_add` is one action, so the calls of several threads run in some order. A thread's state
-- is stored under its id.
use inkfuse.Base.{
  ℕ, suc, ◌+◌, ◌-◌, ◌*◌, ◌≡◌, refl, ap, ◌∙◌, inl, inr, Option, none, some, List, [], ◌∷◌, ◌++◌,
  arith, leb, if◌then◌else◌, Bool-cases, length, min, update, eq→==,
}
use inkfuse.Exec.Intervals.{numbers, numbers-append}

abbrev pub default_chunk_size : ℕ
default_chunk_size = 512

pub record LoopDriverState : Type 0 where
  pub start : ℕ
  pub end : ℕ

pub record TScanDriver : Type 0 where
  pub rel_size : ℕ
  pub start_idx : ℕ
  pub states : ℕ → LoopDriverState

-- `pickMorsel` with the size of the morsel that was picked, if any
unfoldable pub pick_morsel : ℕ → TScanDriver → Option ℕ × TScanDriver
pick_morsel thread_id d =
    let morsel_start = d.start_idx in
    let advanced : TScanDriver = record d { start_idx = morsel_start + default_chunk_size } in
    let end = min (morsel_start + default_chunk_size) d.rel_size in
    let state : LoopDriverState = record { start = morsel_start; end = end } in
    if leb d.rel_size morsel_start
    then (none, advanced)
    else (some (end - morsel_start), record advanced { states = update d.states thread_id state })

-- The morsel of a thread after a call, by what the call returned.
unfoldable morsel : ℕ → Option ℕ × TScanDriver → List LoopDriverState
morsel thread_id (none, d) = []
morsel thread_id (some size, d) = d.states thread_id ∷ []

-- The morsels that calls by these threads pick.
unfoldable pub scan_morsels : List ℕ → TScanDriver → List LoopDriverState
unfolding pick_morsel morsel
scan_morsels [] d = []
scan_morsels (thread_id ∷ threads) d =
    let picked = pick_morsel thread_id d in morsel thread_id picked ++ scan_morsels threads picked.1

-- The rows of morsels, in order.
unfoldable pub rows_of : List LoopDriverState → List ℕ
unfolding numbers
rows_of [] = []
rows_of (m ∷ ms) = numbers m.start (m.end - m.start) ++ rows_of ms

first_rows :
    (thread_id : ℕ) (d : TScanDriver) (ms : List LoopDriverState)
    → rows_of (morsel thread_id (pick_morsel thread_id d) ++ ms)
      ≡ numbers d.start_idx (min (d.rel_size - d.start_idx) default_chunk_size) ++ rows_of ms
unfolding pick_morsel morsel rows_of numbers
first_rows thread_id d ms = elim (Bool-cases (leb d.rel_size d.start_idx)) [
  | inl over ↦
      let none_ : min (d.rel_size - d.start_idx) default_chunk_size ≡ 0 = ground (arith, over) in
      rw (over, none_) refl
  | inr more ↦
      let m : min (d.start_idx + default_chunk_size) d.rel_size - d.start_idx
          ≡ min (d.rel_size - d.start_idx) default_chunk_size =
        ground (arith, more) in
      rw (more, eq→== thread_id thread_id refl) (ap (λ n. numbers d.start_idx n ++ rows_of ms) m)
]

pick_morsel-start_idx :
    (thread_id : ℕ) (d : TScanDriver)
    → (pick_morsel thread_id d).1.start_idx ≡ d.start_idx + default_chunk_size
unfolding pick_morsel
pick_morsel-start_idx thread_id d = elim (Bool-cases (leb d.rel_size d.start_idx)) [
  | inl over ↦ rw over refl
  | inr more ↦ rw more refl
]

pick_morsel-rel_size :
    (thread_id : ℕ) (d : TScanDriver) → (pick_morsel thread_id d).1.rel_size ≡ d.rel_size
unfolding pick_morsel
pick_morsel-rel_size thread_id d = elim (Bool-cases (leb d.rel_size d.start_idx)) [
  | inl over ↦ rw over refl
  | inr more ↦ rw more refl
]

chunk_and_rest :
    (start size calls : ℕ)
    → numbers start (min (size - start) default_chunk_size)
        ++ numbers
            (start + default_chunk_size)
            (min (size - (start + default_chunk_size)) (default_chunk_size * calls))
      ≡ numbers start (min (size - start) (default_chunk_size * suc calls))
unfolding numbers
chunk_and_rest start size calls = elim (Bool-cases (leb size (start + default_chunk_size))) [
  | inl last ↦
      let rest : min (size - (start + default_chunk_size)) (default_chunk_size * calls) ≡ 0 =
        ground (arith, last) in
      rw rest (
        numbers-append start (min (size - start) default_chunk_size) 0 _ _ (ground (arith, last))
          refl)
  | inr more ↦
      let full : min (size - start) default_chunk_size ≡ default_chunk_size =
        ground (arith, more) in
      rw full (numbers-append start default_chunk_size _ _ _ (ground (arith, more)) refl)
]

-- The morsels that any calls by any threads pick are the rows from the start index on, each once and
-- in the order of the calls, up to one chunk per call or the end of the relation.
pub scan_morsels-rows_of :
    (threads : List ℕ) (d : TScanDriver)
    → rows_of (scan_morsels threads d)
      ≡ numbers d.start_idx (min (d.rel_size - d.start_idx) (default_chunk_size * length threads))
unfolding scan_morsels rows_of numbers
scan_morsels-rows_of [] d =
    let none_ : min (d.rel_size - d.start_idx) 0 ≡ 0 = omega arith in rw none_ refl
scan_morsels-rows_of (thread_id ∷ threads) d =
    first_rows thread_id d _
    ∙ ap (λ xs. numbers d.start_idx (min (d.rel_size - d.start_idx) default_chunk_size) ++ xs)
        (scan_morsels-rows_of threads (pick_morsel thread_id d).1)
    ∙ rw (pick_morsel-start_idx thread_id d, pick_morsel-rel_size thread_id d)
        (chunk_and_rest d.start_idx d.rel_size (length threads))
