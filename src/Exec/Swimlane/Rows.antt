-- ===== src/Exec/Swimlane/Rows.antt =====
-- exec/PipelineExecutor.cpp: the rows that a thread runs.
use inkfuse.Base.{
  ℕ, ◌+◌, ◌-◌, ◌<◌, ◌≤◌, ◌≡◌, ◌⊎◌, inl, inr, refl, sym, ap, ◌∙◌, Bool, true, false, some, List, [],
  ◌∷◌, ◌++◌, arith, leb, min, Bool-cases,
}
use mathlib.Core.List.{append_assoc, append-nil}
use inkfuse.Exec.Intervals.{numbers, numbers-append}
use inkfuse.Exec.Scan.{LoopDriverState}
use inkfuse.Exec.Swimlane.{ExecutionMode, PrettyPrinter, Lane}

-- The rows that a lane has run, by whatever backend.
unfoldable pub rows_run : List (ExecutionMode × LoopDriverState) → List ℕ
unfolding numbers
rows_run [] = []
rows_run (m ∷ ms) = numbers (m.1).start ((m.1).end - (m.1).start) ++ rows_run ms

pub rows_run-append :
    (ms : List (ExecutionMode × LoopDriverState)) (b : ExecutionMode) (m : LoopDriverState)
    → rows_run (ms ++ (b, m) ∷ []) ≡ rows_run ms ++ numbers m.start (m.end - m.start)
unfolding rows_run
rows_run-append [] b m = append-nil (numbers m.start (m.end - m.start))
rows_run-append (x ∷ ms) b m =
    ap (λ r. numbers (x.1).start ((x.1).end - (x.1).start) ++ r) (rows_run-append ms b m)
    ∙ sym (
        append_assoc (numbers (x.1).start ((x.1).end - (x.1).start)) (rows_run ms)
          (numbers m.start (m.end - m.start)))

abbrev pub left : Lane → ℕ
left l = l.driver.rel_size - l.driver.start_idx

-- The printer of a lane has reached its limit.
abbrev pub IsFull : Lane → Type 0
IsFull l = (p : PrettyPrinter) × (l.printer ≡ some p) × (p.limit ≡ some 0)

-- A lane has run the next rows in order, up to the end of the relation or to the limit of its printer.
pub record Ends (l l' : Lane) : Type 0 where
  pub ran : ℕ
  pub rows : rows_run l'.morsels ≡ rows_run l.morsels ++ numbers l.driver.start_idx ran
  pub fits : ran ≤ left l
  pub all : (ran ≡ left l) ⊎ IsFull l'

pub record Continues (l l' : Lane) : Type 0 where
  pub fewer : left l' < left l
  pub ends : (l'' : Lane) → Ends l' l'' → Ends l l''

-- The rows of one morsel, and those behind it.
pub Picked-Continues :
    (l l' : Lane)
    → l.driver.start_idx < l.driver.rel_size
    → l'.driver.rel_size ≡ l.driver.rel_size
    → l'.driver.start_idx ≡ l.driver.start_idx + 512
    → rows_run l'.morsels ≡ rows_run l.morsels ++ numbers l.driver.start_idx (min 512 (left l))
    → Continues l l'
unfolding numbers
Picked-Continues l l' some_ size start rows = record {
  fewer = omega (arith, some_, size, start);
  ends = λ l'' e.
      let start_idx = l.driver.start_idx in
      let first = min 512 (left l) in
      record {
        ran = first + e.ran;
        rows =
            e.rows
            ∙ ap (λ r. r ++ numbers l'.driver.start_idx e.ran) rows
            ∙ append_assoc (rows_run l.morsels) (numbers start_idx first)
                (numbers l'.driver.start_idx e.ran)
            ∙ ap (λ r. rows_run l.morsels ++ r) (both e.ran e.fits);
        fits = omega (arith, some_, size, start, e.fits);
        all = elim e.all [
          | inl a ↦ inl (omega (arith, some_, size, start, a))
          | inr full ↦ inr full
        ];
      };
}
  where
    both :
        (n : ℕ)
        → n ≤ left l'
        → numbers l.driver.start_idx (min 512 (left l)) ++ numbers l'.driver.start_idx n
          ≡ numbers l.driver.start_idx (min 512 (left l) + n)
    both n fits = elim (Bool-cases (leb 512 (left l))) [
      | inl whole ↦
          numbers-append l.driver.start_idx (min 512 (left l)) n (min 512 (left l) + n)
            l'.driver.start_idx refl (ground (arith, whole, start))
      | inr last ↦
          let none_ : n ≡ 0 = ground (arith, last, fits, size, start) in
          ap (λ k. numbers l.driver.start_idx (min 512 (left l)) ++ numbers l'.driver.start_idx k)
            none_
          ∙ append-nil (numbers l.driver.start_idx (min 512 (left l)))
          ∙ ap (numbers l.driver.start_idx) (omega (arith, none_))
    ]

pub full-Ends : (l : Lane) → IsFull l → Ends l l
unfolding numbers
full-Ends l full = record {
  ran = 0;
  rows = sym (append-nil (rows_run l.morsels));
  fits = omega arith;
  all = inr full;
}

-- A call ends the loop for good, or there is less left.
abbrev pub Outcome : Lane → Bool × Lane → Type 0
Outcome l next = ((next.0 ≡ false) × Ends l next.1) ⊎ ((next.0 ≡ true) × Continues l next.1)

pub Continues-trans : (l l' l'' : Lane) → Continues l l' → Continues l' l'' → Continues l l''
Continues-trans l l' l'' c d = record {
  fewer = omega (arith, c.fewer, d.fewer);
  ends = λ x e. c.ends x (d.ends x e);
}
