-- ===== src/Runtime/Atomic/Concurrent.antt =====
-- runtime/NewHashTables.cpp: `AtomicHashTable::insert` on any number of threads, step by step.
use inkfuse.Base.{
  ℕ, ◌≤◌, ◌<◌, ◌≡◌, ◌⊎◌, Bool, true, false, not, ◌&&◌, List, [], ◌∷◌, ◌==◌, if◌then◌else◌, update,
}
use inkfuse.Runtime.Tags.{is_filled, fill_tag}
use inkfuse.Runtime.Probe.{advance, rounds}
use inkfuse.Runtime.Comparator.{Comparator, Row, copy_bytes}
use inkfuse.Runtime.Atomic.{Table, slot_id}

-- Where a thread stands in `insert`: before the `load` of the tag at a slot, behind it with the
-- loaded tag, before the `memcpy` into the slot that it claimed, and at the `return`.
pub data Phase : Type 0 where
  loading : ℕ → Phase
  loaded : ℕ → ℕ → Phase
  claimed : ℕ → Phase
  returned : ℕ → Phase

-- The table and the phase of each thread.
pub record System : Type 0 where
  pub table : Table
  pub phases : ℕ → Phase

-- The threads run `insert<true>(keys i, hashes i)`.
module _ (c : Comparator) (keys : ℕ → Row) (hashes : ℕ → ℕ) where
  begin : Table → ℕ → Phase
  begin t i = loading (slot_id t (hashes i))

  unfoldable pub start : Table → System
  unfolding begin
  start t = record { table = t; phases = begin t }

  -- one atomic action of thread `i`
  unfoldable pub act : Table → ℕ → Phase → Table × Phase
  act t i (loading x) = (t, loaded x (t.tags x))
  act t i (loaded x tag) =
      if not (is_filled tag) && t.tags x == tag
      then (record t { tags = update t.tags x (fill_tag (hashes i)) }, claimed x)
      else (t, loading (advance t.mod_mask x))
  act t i (claimed x) =
      (record t { rows = update t.rows x (copy_bytes c.key_size (keys i) (t.rows x)) }, returned x)
  act t i (returned x) = (t, returned x)

  unfoldable pub step : System → ℕ → System
  step s i =
      let (t, p) = act s.table i (s.phases i) in record { table = t; phases = update s.phases i p }

  -- a schedule is the list of the threads that act
  unfoldable pub run : System → List ℕ → System
  run s [] = s
  run s (i ∷ is) = run (step s i) is

-- The slot at which a thread is, and whether it has claimed it.
abbrev pub at : Phase → ℕ
at (loading x) = x
at (loaded x tag) = x
at (claimed x) = x
at (returned x) = x

abbrev pub owns : Phase → Bool
owns (claimed x) = true
owns (returned x) = true
owns _ = false

-- What each thread may rely on while the others run. `chain`: the slots that it went past are
-- filled. `seen`: a loaded tag is still there, or the slot is filled by now. `mine`: the tag of a claimed slot stays. `apart`: no two threads claim one slot.
-- `copied`: behind the `memcpy` the slot holds the key.
pub record IsSafe (c : Comparator) (keys : ℕ → Row) (hashes : ℕ → ℕ) (m : ℕ) (s : System)
    : Type 0 where
  pub mask : s.table.mod_mask ≡ m
  pub inside : (i : ℕ) → at (s.phases i) ≤ m
  pub passed :
      (i x : ℕ)
      → x ≤ m
      → rounds m (slot_id s.table (hashes i)) x
        < rounds m (slot_id s.table (hashes i)) (at (s.phases i))
      → is_filled (s.table.tags x) ≡ true
  pub seen :
      (i x tag : ℕ)
      → s.phases i ≡ loaded x tag
      → (s.table.tags x ≡ tag) ⊎ (is_filled (s.table.tags x) ≡ true)
  pub mine :
      (i : ℕ) → owns (s.phases i) ≡ true → s.table.tags (at (s.phases i)) ≡ fill_tag (hashes i)
  pub apart :
      (i j : ℕ)
      → owns (s.phases i) ≡ true
      → owns (s.phases j) ≡ true
      → at (s.phases i) ≡ at (s.phases j)
      → i ≡ j
  pub copied : (i x : ℕ) → s.phases i ≡ returned x → c.key_of (s.table.rows x) ≡ c.key_of (keys i)
