-- ===== src/Runtime/SimpleKey/Iterate.antt =====
-- runtime/HashTables.cpp: `iteratorStart` and `iteratorAdvance` of `HashTableSimpleKey`.
use inkfuse.Base.{ℕ, Bool, ◌+◌, ◌≤◌, ◌≡◌, some}
use inkfuse.Runtime.Run.{ok}
use inkfuse.Runtime.Tags.{is_filled}
use inkfuse.Runtime.Scan.{Iterator, IsAt, scan_start, scan_next}
use inkfuse.Runtime.SimpleKey.{State, iterator_start, iterator_advance}

abbrev pub filled : State → ℕ → Bool
filled s idx = is_filled (s.tags idx)

-- `iteratorStart` ends at the first filled slot of the table, or is null if there is none, and
-- `iteratorAdvance` ends at the first filled slot behind the one it is called at, or is null.
pub iterator_visits_filled :
    (s : State)
    → ((it : Iterator) × (iterator_start s ≡ ok it) × IsAt (filled s) s.mod_mask 0 it)
      × ((i : ℕ)
          → i ≤ s.mod_mask
          → (it : Iterator) × (iterator_advance s (some i, i) ≡ ok it)
            × IsAt (filled s) s.mod_mask (i + 1) it)
unfolding iterator_start iterator_advance
iterator_visits_filled s =
    (scan_start (filled s) s.mod_mask, λ i l. scan_next (filled s) s.mod_mask i l)
